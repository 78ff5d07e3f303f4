-- ===== src/Checkpoint/Durable/Atomic.antt =====
-- A process that dies in `_atomic_write` (prismpath/checkpoint.py) leaves the old file or the new one.
use prismpath.Base.{
  ℕ, zero, suc, Option, none, some, List, [], ◌∷◌, ◌++◌, length, take, ◌≡◌, ◌≢◌, refl, sym, ap, ◌∙◌,
  ◌⊎◌, inl, inr, arith, append_assoc, append-nil, length-append,
}
use prismpath.Base.Text.{Text, codes}
use prismpath.Base.Dict.{Dict, lookup, lookup_or, insert, lookup-insert_self, lookup-insert_ne}
use prismpath.Checkpoint.Durable.{
  fsync, replace, apply, apply_all, tmp_of, writes, joined, atomic_write, put, remove,
}

-- The temporary file is another one.
tmp_of-ne : (x : Text) → tmp_of x ≢ x
tmp_of-ne x e = absurd (omega (arith, ap length e, length-append x (codes ".tmp")))

lookup_or-some :
    {V : Type 0} (v : V) (k : Text) (w : V) (d : Dict V) → lookup k d ≡ some w → lookup_or v k d ≡ w
lookup_or-some v k w d e = ap (λ (o : Option _). elim o [ none ↦ v | some u ↦ u ]) e

module _ (x : Text) where
  -- The file is as it was, or it has this text.
  abbrev OldOr : Text → Dict Text → Dict Text → Type 0
  OldOr new d after = (lookup x after ≡ lookup x d) ⊎ (lookup x after ≡ some new)

  -- Once the temporary file holds `sofar`, with the pieces that are still to be written.
  finish-OldOr :
      (n : ℕ) (pieces : List Text) (sofar : Text) (d : Dict Text)
      → lookup (tmp_of x) d ≡ some sofar
      → OldOr (sofar ++ joined pieces) d (
          apply_all
            (take n (writes (tmp_of x) pieces ++ fsync (tmp_of x) ∷ replace (tmp_of x) x ∷ []))
            d)
  unfolding apply_all apply
  finish-OldOr zero pieces sofar d e = inl refl
  finish-OldOr (suc zero) [] sofar d e = inl refl
  finish-OldOr (suc (suc n)) [] sofar d e = inr (at n)
    where
      replaced : lookup x (apply (replace (tmp_of x) x) d) ≡ some (sofar ++ [])
      replaced =
          ap (λ o. lookup x (put x o (remove (tmp_of x) d))) e
          ∙ lookup-insert_self x sofar (remove (tmp_of x) d)
          ∙ ap some (sym (append-nil sofar))

      at :
          (k : ℕ)
          → lookup x (apply_all (take k []) (apply (replace (tmp_of x) x) d)) ≡ some (sofar ++ [])
      at zero = replaced
      at (suc k) = replaced
  finish-OldOr (suc n) (t ∷ ts) sofar d e = elim (finish-OldOr n ts (sofar ++ t) written now) [
    | inl h ↦ inl (h ∙ same)
    | inr h ↦ inr (h ∙ ap some (append_assoc sofar t (joined ts)))
  ]
    where
      written : Dict Text
      written = insert (tmp_of x) (lookup_or [] (tmp_of x) d ++ t) d

      now : lookup (tmp_of x) written ≡ some (sofar ++ t)
      now =
          lookup-insert_self (tmp_of x) (lookup_or [] (tmp_of x) d ++ t) d
          ∙ ap (λ s. some (s ++ t)) (lookup_or-some [] (tmp_of x) sofar d e)

      same : lookup x written ≡ lookup x d
      same = lookup-insert_ne (tmp_of x) x (lookup_or [] (tmp_of x) d ++ t) d (tmp_of-ne x)

  -- Whenever the calls of an atomic write break off, and however the text is cut into pieces, a reader
  -- finds the file as it was before or with the whole new text.
  pub atomic_write-OldOr :
      (n : ℕ) (pieces : List Text) (d : Dict Text)
      → (lookup x (apply_all (take n (atomic_write x pieces)) d) ≡ lookup x d)
        ⊎ (lookup x (apply_all (take n (atomic_write x pieces)) d) ≡ some (joined pieces))
  unfolding atomic_write apply_all apply
  atomic_write-OldOr zero pieces d = inl refl
  atomic_write-OldOr (suc n) pieces d =
      elim (finish-OldOr n pieces [] (insert (tmp_of x) [] d)
        (lookup-insert_self (tmp_of x) [] d)) [
          | inl h ↦ inl (h ∙ lookup-insert_ne (tmp_of x) x [] d (tmp_of-ne x))
          | inr h ↦ inr h
        ]
