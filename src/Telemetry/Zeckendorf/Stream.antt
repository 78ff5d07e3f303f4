-- ===== src/Telemetry/Zeckendorf/Stream.antt =====
-- The self-framing stream (adapters/telemetry/zeckendorf.py): what `encode_stream` concatenates,
-- `decode_stream` splits and decodes, and a trailing partial frame is dropped.
use prismpath.Base.{
  ℕ, ◌≤◌, Option, some, true, false, List, [], ◌∷◌, ◌++◌, All, ◌≡◌, refl, ap, ◌∙◌, append_assoc,
}
use prismpath.Base.Maybe.{◌>>=◌}
use prismpath.Telemetry.Zeckendorf.{
  Bits, encode, decode, encode_stream, decode_frames, decode_stream,
}
use prismpath.Telemetry.Zeckendorf.Greedy.{separated, last_bit, decode-value, encode-IsCode}

-- A complete frame, and the frames behind it.
abbrev end_frame : Bits → Bits → Option (List ℕ)
end_frame rest code = decode code >>= λ v. decode_frames [] rest >>= λ vs. some (v ∷ vs)

-- The first `11` at or behind a frame's start is its end.
decode_frames-frame :
    (frame zeck rest : Bits)
    → separated zeck ≡ true
    → last_bit zeck ≡ true
    → decode_frames frame (zeck ++ true ∷ rest) ≡ end_frame rest (frame ++ (zeck ++ true ∷ []))
unfolding decode_frames
decode_frames-frame frame [] rest h k = cc
decode_frames-frame frame (true ∷ []) rest h k = refl
decode_frames-frame frame (false ∷ []) rest h k = cc
decode_frames-frame frame (true ∷ true ∷ ds) rest h k = cc
decode_frames-frame frame (true ∷ false ∷ ds) rest h k =
    decode_frames-frame (frame ++ true ∷ []) (false ∷ ds) rest h k
    ∙ ap (end_frame rest) (append_assoc frame (true ∷ []) (false ∷ ds ++ true ∷ []))
decode_frames-frame frame (false ∷ b ∷ ds) rest h k =
    decode_frames-frame (frame ++ false ∷ []) (b ∷ ds) rest h k
    ∙ ap (end_frame rest) (append_assoc frame (false ∷ []) (b ∷ ds ++ true ∷ []))

-- Bits with no `11` end no frame.
decode_frames-separated :
    (frame tail : Bits) → separated tail ≡ true → decode_frames frame tail ≡ some []
unfolding decode_frames
decode_frames-separated frame [] h = refl
decode_frames-separated frame (true ∷ []) h = refl
decode_frames-separated frame (false ∷ []) h = refl
decode_frames-separated frame (true ∷ true ∷ ds) h = cc
decode_frames-separated frame (true ∷ false ∷ ds) h =
    decode_frames-separated (frame ++ true ∷ []) (false ∷ ds) h
decode_frames-separated frame (false ∷ b ∷ ds) h =
    decode_frames-separated (frame ++ false ∷ []) (b ∷ ds) h

-- Positive integers are encoded one by one, and decoded to the same integers in the same order, also
-- with a partial frame behind them, that is with any bits in which no two ones are adjacent.
pub decode_stream-encode_stream :
    (values : List ℕ) (tail : Bits)
    → All (λ n. 1 ≤ n) values
    → separated tail ≡ true
    → (bits : Bits) × (encode_stream values ≡ some bits)
      × (decode_stream (bits ++ tail) ≡ some values)
unfolding encode_stream decode_stream
decode_stream-encode_stream [] tail h k = ([], refl, decode_frames-separated [] tail k)
decode_stream-encode_stream (n ∷ ns) tail h k =
    let (code, e, c) = encode-IsCode n h.0 in
    let (rest, es, d) = decode_stream-encode_stream ns tail h.1 k in
    (
      code ++ rest,
      rw (e, es) refl,
      ap (decode_frames []) (split code c.zeck rest c.code_eq)
          ∙ (decode_frames-frame [] c.zeck (rest ++ tail) c.apart c.ends
              ∙ rw (decode-value c.zeck c.ends, d, c.sums) refl),
    )
  where
    split :
        (code zeck rest : Bits)
        → code ≡ zeck ++ true ∷ []
        → (code ++ rest) ++ tail ≡ zeck ++ true ∷ (rest ++ tail)
    split code zeck rest e =
        append_assoc code rest tail
        ∙ (ap (λ t. t ++ (rest ++ tail)) e ∙ append_assoc zeck (true ∷ []) (rest ++ tail))

-- `decode` inverts `encode`, and every code ends in `11` with no other `11` in it.
pub decode-encode :
    (n : ℕ)
    → 1 ≤ n
    → (zeck : Bits) × (encode n ≡ some (zeck ++ true ∷ []))
      × (separated zeck ≡ true)
      × (last_bit zeck ≡ true)
      × (decode (zeck ++ true ∷ []) ≡ some n)
decode-encode n h =
    let (code, e, c) = encode-IsCode n h in
    (c.zeck, e ∙ ap some c.code_eq, c.apart, c.ends, decode-value c.zeck c.ends ∙ ap some c.sums)
