-- ===== src/Telemetry/Zeckendorf.antt =====
-- The Fibonacci codec (adapters/telemetry/zeckendorf.py). A bit string is a list of Booleans; the
-- Fibonacci basis is held largest first, so that Python's `append` is `∷`.
pub mod Basis
pub mod Greedy
pub mod Stream
use prismpath.Base.{
  ℕ, zero, suc, ◌+◌, ◌-◌, Option, none, some, Bool, true, false, ◌&&◌, not, if◌then◌else◌, List, [],
  ◌∷◌, ◌++◌, length, leb, ltb, ◌==◌, reverse,
}
use prismpath.Base.Maybe.{◌>>=◌}

abbrev pub Bits : Type 0
Bits = List Bool

-- `while fibs[-1] <= n: fibs.append(fibs[-1] + fibs[-2])`, on fuel.
pub grow : ℕ → ℕ → List ℕ → List ℕ
grow (suc fuel) n (b ∷ a ∷ fs) =
    let rest = grow fuel n ((b + a) ∷ b ∷ a ∷ fs) in if leb b n then rest else b ∷ a ∷ fs
grow _ n fs = fs

-- `if fibs[-1] > n: fibs.pop()`
abbrev pub pop_over : ℕ → List ℕ → List ℕ
pop_over n [] = []
pop_over n (f ∷ fs) = if ltb n f then fs else f ∷ fs

-- `_fibs_upto`. The last term grows in every round, so `n` rounds are enough.
pub fibs_upto : ℕ → List ℕ
unfolding grow
fibs_upto n = pop_over n (grow n n (2 ∷ 1 ∷ []))

-- The greedy loop from the largest term down: the bits in low to high order, and `rem`.
pub greedy : List ℕ → ℕ → Bits × ℕ
greedy [] rem = ([], rem)
greedy (f ∷ fs) rem =
    let fits = leb f rem in
    let (bits, left) = greedy fs (if fits then rem - f else rem) in (bits ++ fits ∷ [], left)

-- `encode`: `none` is the ValueError on integers below 1, or the failed assertion.
unfoldable pub encode : ℕ → Option Bits
unfolding greedy fibs_upto
encode n =
    let (bits, rem) = greedy (fibs_upto n) n in
    if ltb n 1 then none else if rem == 0 then some (bits ++ true ∷ []) else none

-- `while len(fibs) < len(zeck): fibs.append(…)`, for the rounds that are left.
pub grow_by : ℕ → List ℕ → List ℕ
grow_by (suc rounds) (b ∷ a ∷ fs) = grow_by rounds ((b + a) ∷ b ∷ a ∷ fs)
grow_by _ fs = fs

-- `sum(fibs[i] for i, b in enumerate(zeck) if b == "1")`, over the ascending basis.
pub weigh : List ℕ → Bits → ℕ
weigh (f ∷ fs) (d ∷ ds) = (if d then f else 0) + weigh fs ds
weigh _ _ = 0

abbrev pub ends_in_11 : Bits → Bool
ends_in_11 [] = false
ends_in_11 (a ∷ []) = false
ends_in_11 (a ∷ b ∷ []) = a && b
ends_in_11 (a ∷ b ∷ c ∷ ds) = ends_in_11 (b ∷ c ∷ ds)

-- `code[:-1]`
abbrev pub init : Bits → Bits
init [] = []
init (a ∷ []) = []
init (a ∷ b ∷ ds) = a ∷ init (b ∷ ds)

-- `decode`; `none` is the ValueError.
unfoldable pub decode : Bits → Option ℕ
unfolding weigh grow_by
decode code =
    let zeck = init code in
    if ends_in_11 code
    then some (weigh (reverse (grow_by (length zeck - 2) (2 ∷ 1 ∷ []))) zeck)
    else none

-- `encode_stream`
unfoldable pub encode_stream : List ℕ → Option Bits
unfolding encode
encode_stream [] = some []
encode_stream (v ∷ vs) = encode v >>= λ code. encode_stream vs >>= λ rest. some (code ++ rest)

-- The loop of `decode_stream`, at `bits[i:]` with `bits[start:i]` as the frame so far.
unfoldable pub decode_frames : Bits → Bits → Option (List ℕ)
unfolding decode
decode_frames frame [] = some []
decode_frames frame (true ∷ true ∷ rest) =
    decode (frame ++ true ∷ true ∷ []) >>= λ v. decode_frames [] rest >>= λ vs. some (v ∷ vs)
decode_frames frame (b ∷ rest) = decode_frames (frame ++ b ∷ []) rest

unfoldable pub decode_stream : Bits → Option (List ℕ)
unfolding decode_frames
decode_stream bits = decode_frames [] bits
