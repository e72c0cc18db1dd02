-- ===== src/Inventory/Returned.antt =====
-- Giving copies back item by item, from any stock that has room for them.
use my_bookstore.Base.{
  ==_refl, IsInt, ◌∙◌, int_eq_iff, refl, subst, true, ap, Option, inr, ℤ_eq, int_laws,
  if◌then◌else◌, inl, ◌+ℤ◌, ◌==◌, Bool-cases, [], some, ◌∷◌, ◌≡◌, List, ℤ, All, pos, ◌≤ℤ◌,
}
use my_bookstore.Model.{InventoryMutation}
use my_bookstore.Inventory.Laws.{sum_in_range, Releases, demand, plus}
use my_bookstore.Inventory.Reserved.{demand_nonneg, plus_zero, Known, Known-mono, IsPositive}
use my_bookstore.Inventory.Rollback.{give_back}

module _ {S : Type 0} (stock : ℤ → S → Option ℤ) where
  -- The copies of `items` can be added: their quantities are positive, their books are known, and no
  -- count is negative or leaves `int`.
  pub record IsReturnable (items : List InventoryMutation) (t : S) : Type 0 where
    pub positive : IsPositive items
    pub known : All (λ item. Known stock t item.book_id) items
    pub room : (b w : ℤ) → stock b t ≡ some w → (pos 0 ≤ℤ w) × IsInt (w +ℤ demand b items)

  module _ (release : ℤ → ℤ → S → S) {t : S} (item : InventoryMutation)
      (rest : List InventoryMutation) (law : Releases stock release)
      (h : IsReturnable (item ∷ rest) t) where
    abbrev held : ℤ
    held = h.known.0.0

    abbrev given_back : S
    given_back = release item.book_id item.quantity t

    demand_here : demand item.book_id (item ∷ rest) ≡ item.quantity +ℤ demand item.book_id rest
    demand_here = rw (==_refl item.book_id) refl

    one_in_range : IsInt (held +ℤ item.quantity)
    one_in_range =
        let r = h.room item.book_id held h.known.0.1 in
        sum_in_range held item.quantity (demand item.book_id rest)
          (held +ℤ demand item.book_id (item ∷ rest)) r.0 h.positive.0
          (demand_nonneg item.book_id rest h.positive.1) (ap (λ d. held +ℤ d) demand_here) r.1

    back-at :
        (b : ℤ)
        → stock b given_back
          ≡ (if item.book_id == b then some (held +ℤ item.quantity) else stock b t)
    back-at = law item.book_id item.quantity held t h.positive.0 h.known.0.1 one_in_range

    held_now : (b : ℤ) → (item.book_id == b) ≡ true → stock b t ≡ some held
    held_now b e = subst (λ j. stock j t ≡ some held) ((int_eq_iff _ _).0 e) h.known.0.1

    back-Known : (b w : ℤ) → stock b t ≡ some w → Known stock given_back b
    back-Known b w k = elim (Bool-cases (item.book_id == b)) [
      | inl e ↦ (held +ℤ item.quantity, rw (back-at b, e) refl)
      | inr e ↦ (w, rw (back-at b, e) k)
    ]

    back_room : (b w : ℤ) → stock b given_back ≡ some w → (pos 0 ≤ℤ w) × IsInt (w +ℤ demand b rest)
    back_room b w k = elim (Bool-cases (item.book_id == b)) [
      | inl e ↦
          let now : w ≡ held +ℤ item.quantity = cc (k, back-at b, e) in
          let r = h.room b held (held_now b e) in
          let whole : held +ℤ demand b (item ∷ rest) ≡ (held +ℤ item.quantity) +ℤ demand b rest =
            rw e (omega int_laws) in
          rw now (omega (int_laws, r.0, h.positive.0), subst IsInt whole r.1)
      | inr e ↦
          let r = h.room b w (cc (k, back-at b, e)) in
          let whole : w +ℤ demand b (item ∷ rest) ≡ w +ℤ demand b rest = rw e (omega int_laws) in
          (r.0, subst IsInt whole r.1)
    ]

    back-IsReturnable : IsReturnable rest given_back
    back-IsReturnable = record {
      positive = h.positive.1;
      known = Known-mono stock t given_back rest back-Known h.known.1;
      room = back_room;
    }

    back_exact :
        (b : ℤ)
        → plus (demand b rest) (stock b given_back) ≡ plus (demand b (item ∷ rest)) (stock b t)
    back_exact b = elim (Bool-cases (item.book_id == b)) [
      | inl e ↦ rw (back-at b, held_now b e, e) (ap some (omega int_laws))
      | inr e ↦ rw (back-at b, e) (ap (λ d. plus d (stock b t)) (omega int_laws))
    ]

  -- Every count rises by exactly what the items name of its book.
  pub give_back-exact :
      (release : ℤ → ℤ → S → S) (items : List InventoryMutation) {t : S}
      → Releases stock release
      → IsReturnable items t
      → (b : ℤ) → stock b (give_back stock release items t) ≡ plus (demand b items) (stock b t)
  unfolding give_back
  give_back-exact release [] law h b = plus_zero _
  give_back-exact release (item ∷ rest) law h b =
      give_back-exact release rest law (back-IsReturnable release item rest law h) b
      ∙ back_exact release item rest law h b
