-- ===== src/Store/SkipList/Cells.antt =====
-- store/skip_list.go: the cells that `Delete` writes.
use tiny_red.Base.{
  ℕ, suc, ◌+◌, ◌≡◌, ◌≢◌, refl, sym, ap, ◌∙◌, inl, inr, true, false, Option, some, List, [], ◌∷◌,
  ◌++◌, arith, length, All, pos, ◌+ℤ◌, ◌-ℤ◌, Bool-cases,
}
use tiny_red.Store.SkipList.{SkipListLevel}
use tiny_red.Store.SkipList.Queries.{points_to}
use tiny_red.Store.SkipList.Chain.{
  View, is_tall, IsLow, Chain, Chain-same, Chain-low, Chain-behind, Chain-replace, Same, ahead, gap,
  cell_for-low, IsLow-unchanged, ahead-unchanged, gap-unchanged,
}

-- One level of `Delete`.
pub Chain-remove :
    (V W : View) (A : List ℕ) (u : ℕ) (M : List ℕ) (z : ℕ) (zs : List ℕ)
    → Chain V (A ++ u ∷ (M ++ z ∷ zs))
    → All (IsLow V) M
    → All (Same V W) A
    → All (Same V W) M
    → All (Same V W) zs
    → is_tall V u ≡ true
    → W u ≡ some (record { forward = ahead V zs; span = pos (length M + gap V zs) })
    → Chain W (A ++ u ∷ (M ++ zs))
Chain-remove V W A u M z zs h low sameA sameM samez tall e =
    let rest = (Chain-behind V M (z ∷ zs) (Chain-behind V A (u ∷ (M ++ z ∷ zs)) h).1).1 in
    let lows = IsLow-unchanged V W M sameM low in
    Chain-replace V W A u (M ++ z ∷ zs) (M ++ zs) h sameA tall
      (e
        ∙ ap some (
            sym (
              cell_for-low V W M zs lows (ahead V zs) (gap V zs) (ahead-unchanged V W zs samez)
                (gap-unchanged V W zs samez))))
      (Chain-low W M zs lows (Chain-same V W zs samez rest))

span_tall : (a b : ℕ) → pos (a + 1) +ℤ (pos b -ℤ pos 1) ≡ pos (a + b)
span_tall a b = ground arith

span_low : (a b : ℕ) → pos (a + suc b) -ℤ pos 1 ≡ pos (a + b)
span_low a b = ground arith

-- The two cells that the loop writes.
pub unlinked :
    (z : ℕ) (cell next : SkipListLevel) (a b : ℕ) (o : Option ℕ)
    → cell ≡ record { forward = some z; span = pos (a + 1) }
    → next ≡ record { forward = o; span = pos b }
    → let new : SkipListLevel = record {
      forward = next.forward;
      span = cell.span +ℤ (next.span -ℤ pos 1);
    } in
      new ≡ record { forward = o; span = pos (a + b) }
unlinked z cell next a b o e f =
    ap
      (λ (c : SkipListLevel).
        let new : SkipListLevel = record {
          forward = next.forward;
          span = c.span +ℤ (next.span -ℤ pos 1);
        } in
        new)
      e
    ∙ (ap
          (λ (n : SkipListLevel).
            let new : SkipListLevel = record {
              forward = n.forward;
              span = pos (a + 1) +ℤ (n.span -ℤ pos 1);
            } in
            new)
          f
        ∙ ap (λ v. let new : SkipListLevel = record { forward = o; span = v } in new)
            (span_tall a b))

pub shortened :
    (cell : SkipListLevel) (a b : ℕ) (o : Option ℕ)
    → cell ≡ record { forward = o; span = pos (a + suc b) }
    → let new : SkipListLevel = record cell { span = cell.span -ℤ pos 1 } in
      new ≡ record { forward = o; span = pos (a + b) }
shortened cell a b o e =
    ap (λ (c : SkipListLevel). let new : SkipListLevel = record c { span = c.span -ℤ pos 1 } in new)
      e
    ∙ ap (λ v. let new : SkipListLevel = record { forward = o; span = v } in new) (span_low a b)

pub points_to-other :
    (V : View) (zs : List ℕ) (z : ℕ) → All (λ y. y ≢ z) zs → points_to (ahead V zs) z ≡ false
unfolding points_to ahead
points_to-other V [] z _ = refl
points_to-other V (y ∷ zs) z (h, hs) = elim (Bool-cases (is_tall V y)) [
  | inl tall ↦ rw tall (ground arith)
  | inr low ↦ rw low (points_to-other V zs z hs)
]

-- The two cases of the cell that the loop writes.
