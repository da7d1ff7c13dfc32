-- ===== src/Codec/LengthHeader/Cut.antt =====
-- Where a read can cut a stream of frames.
use annety.Prelude.{
  ℕ, ◌≤◌, ◌<◌, ◌≡◌, refl, sym, ap, ◌∙◌, inl, inr, Bool, List, [], ◌∷◌, ◌++◌, arith, length, take,
  drop, Bool-cases, leb, leb→le, length-drop, append_assoc, All, take-append_le, take-append-drop,
  drop-append_le, take-length_append, drop-length_append, not_leb→lt,
}
use annety.Prelude.Int.{ℤ}
use annety.Codec.LengthHeader.{LengthType}
use annety.Codec.LengthHeader.Parts.{frame}
use annety.Codec.LengthHeader.Stream.{Fits, stream, Waits}

module _ (t : LengthType) (guarded : Bool) (max : ℤ) where
  -- Where a prefix of a stream ends: behind some whole frames, inside the next one.
  pub record Cut (ps : List (List ℕ)) (u w : List ℕ) : Type 0 where
    pub done : List (List ℕ)
    pub left : List (List ℕ)
    pub part : List ℕ
    pub all_ : ps ≡ done ++ left
    pub split : u ≡ stream t guarded done ++ part
    pub after : part ++ w ≡ stream t guarded left
    pub waits : Waits t guarded max part
    pub done_fit : All (Fits t guarded max) done
    pub left_fit : All (Fits t guarded max) left

  Cut-in_frame :
      (p : List ℕ) (ps : List (List ℕ)) (u w : List ℕ)
      → u ++ w ≡ frame t guarded p ++ stream t guarded ps
      → All (Fits t guarded max) (p ∷ ps)
      → length u < length (frame t guarded p)
      → Cut (p ∷ ps) u w
  Cut-in_frame p ps u w e_ f h = record {
    done = [];
    left = p ∷ ps;
    part = u;
    all_ = refl;
    split = refl;
    after = e_;
    waits = inr (p, drop (length u) (frame t guarded p), whole, rest, f.0);
    done_fit = tt;
    left_fit = f;
  }
    where
      front : take (length u) (frame t guarded p) ≡ u
      front =
          sym (take-append_le (length u) (frame t guarded p) (stream t guarded ps) (omega arith))
          ∙ ap (take (length u)) (sym e_)
          ∙ take-length_append u w

      whole : u ++ drop (length u) (frame t guarded p) ≡ frame t guarded p
      whole =
          ap (λ l. l ++ drop (length u) (frame t guarded p)) (sym front)
          ∙ take-append-drop (length u) (frame t guarded p)

      rest : 0 < length (drop (length u) (frame t guarded p))
      rest = omega (arith, length-drop (length u) (frame t guarded p))

  cut_behind_frame :
      (p : List ℕ) (ps : List (List ℕ)) (u w : List ℕ)
      → u ++ w ≡ frame t guarded p ++ stream t guarded ps
      → length (frame t guarded p) ≤ length u
      → (frame t guarded p ++ drop (length (frame t guarded p)) u ≡ u)
        × (drop (length (frame t guarded p)) u ++ w ≡ stream t guarded ps)
  cut_behind_frame p ps u w e_ h = (
    ap (λ l. l ++ drop (length (frame t guarded p)) u)
          (sym (take-length_append (frame t guarded p) (stream t guarded ps))
            ∙ ap (take (length (frame t guarded p))) (sym e_)
            ∙ take-append_le (length (frame t guarded p)) u w h)
        ∙ take-append-drop (length (frame t guarded p)) u,
    sym (drop-append_le (length (frame t guarded p)) u w h)
        ∙ ap (drop (length (frame t guarded p))) e_
        ∙ drop-length_append (frame t guarded p) (stream t guarded ps),
  )

  pub cut :
      (ps : List (List ℕ)) (u w : List ℕ)
      → u ++ w ≡ stream t guarded ps
      → All (Fits t guarded max) ps
      → Cut ps u w
  cut [] [] w e_ f = record {
    done = [];
    left = [];
    part = [];
    all_ = refl;
    split = refl;
    after = e_;
    waits = inl refl;
    done_fit = tt;
    left_fit = tt;
  }
  cut [] (x ∷ u) w e_ f = absurd (omega (arith, ap length e_))
  cut (p ∷ ps) u w e_ f = elim (Bool-cases (leb (length (frame t guarded p)) (length u))) [
    | inr inside ↦ Cut-in_frame p ps u w e_ f (not_leb→lt _ _ inside)
    | inl behind ↦
        let whole = cut_behind_frame p ps u w e_ (leb→le _ _ behind) in
        let c = cut ps (drop (length (frame t guarded p)) u) w whole.1 f.1 in
        record {
          done = p ∷ c.done;
          left = c.left;
          part = c.part;
          all_ = ap (◌∷◌ p) c.all_;
          split =
              sym whole.0
              ∙ ap (◌++◌ (frame t guarded p)) c.split
              ∙ sym (append_assoc (frame t guarded p) (stream t guarded c.done) c.part);
          after = c.after;
          waits = c.waits;
          done_fit = (f.0, c.done_fit);
          left_fit = c.left_fit;
        }
  ]
