-- ===== src/Inventory/Rollback.antt =====
-- Giving a reserved batch back, item by item.

use my_bookstore.Base.{
  ==_refl, IsInt, sym, ◌∙◌, int_eq_iff, refl, subst, true, ap, Option, inr, ℤ_eq, int_laws,
  if◌then◌else◌, inl, ◌+ℤ◌, ◌==◌, Bool-cases, [], some, ◌∷◌, ◌≡◌, List, ℤ,
}
use my_bookstore.Model.{InventoryMutation}
use my_bookstore.Inventory.Laws.{sum_in_range, Releases, IsStocked, demand, plus}
use my_bookstore.Inventory.Reserved.{demand_nonneg, plus_zero, Known, Reserved, Known-mono}

module _ {S : Type 0} (stock : ℤ → S → Option ℤ) (release : ℤ → ℤ → S → S) where
  module _ {s t : S} (item : InventoryMutation) (rest : List InventoryMutation)
      (law : Releases stock release) (before : Reserved stock (item ∷ rest) s t) where
    abbrev held : ℤ
    held = before.known.0.0

    abbrev given_back : S
    given_back = release item.book_id item.quantity t

    original : (b w : ℤ) → stock b t ≡ some w → stock b s ≡ some (w +ℤ demand b (item ∷ rest))
    original b w h = before.exact b ∙ ap (plus (demand b (item ∷ rest))) h

    back_in_range : IsInt (held +ℤ item.quantity)
    back_in_range =
        sum_in_range held item.quantity (demand item.book_id rest)
          (held +ℤ demand item.book_id (item ∷ rest))
          (before.remains item.book_id held before.known.0.1).0 before.positive.0
          (demand_nonneg item.book_id rest before.positive.1) (rw (==_refl item.book_id) refl)
          (before.stocked item.book_id _ (original item.book_id held before.known.0.1)).1

    release-at :
        (b : ℤ)
        → stock b given_back
          ≡ (if item.book_id == b then some (held +ℤ item.quantity) else stock b t)
    release-at =
        law item.book_id item.quantity held t before.positive.0 before.known.0.1 back_in_range

    held_at : (b : ℤ) → (item.book_id == b) ≡ true → stock b t ≡ some held
    held_at b e = subst (λ j. stock j t ≡ some held) ((int_eq_iff _ _).0 e) before.known.0.1

    release-exact : (b : ℤ) → stock b s ≡ plus (demand b rest) (stock b given_back)
    release-exact b = elim (Bool-cases (item.book_id == b)) [
      | inl e ↦ rw (release-at b, before.exact b, held_at b e, e) (ap some (omega int_laws))
      | inr e ↦ rw (release-at b, before.exact b, e) (ap (λ d. plus d (stock b t)) (omega int_laws))
    ]

    release-Known : (b w : ℤ) → stock b t ≡ some w → Known stock given_back b
    release-Known b w h = elim (Bool-cases (item.book_id == b)) [
      | inl e ↦ (held +ℤ item.quantity, rw (release-at b, e) refl)
      | inr e ↦ (w, rw (release-at b, e) h)
    ]

    release-remains : IsStocked stock given_back
    release-remains b v h = elim (Bool-cases (item.book_id == b)) [
      | inl e ↦
          let back : v ≡ held +ℤ item.quantity = cc (h, release-at b, e) in
          rw back (
            omega (
              int_laws,
              (before.remains item.book_id held before.known.0.1).0,
              before.positive.0,
            ),
            back_in_range,
          )
      | inr e ↦ before.remains b v (cc (h, release-at b, e))
    ]

    release-Reserved : Reserved stock rest s given_back
    release-Reserved = record {
      exact = release-exact;
      positive = before.positive.1;
      known = Known-mono stock t given_back rest release-Known before.known.1;
      stocked = before.stocked;
      remains = release-remains;
    }

  -- Each item is released by itself.
  unfoldable pub give_back : List InventoryMutation → S → S
  give_back [] t = t
  give_back (item ∷ rest) t = give_back rest (release item.book_id item.quantity t)

  -- Giving a reservation back restores every count.
  pub give_back-restores :
      (items : List InventoryMutation) {s t : S}
      → Releases stock release
      → Reserved stock items s t
      → (b : ℤ) → stock b (give_back items t) ≡ stock b s
  unfolding give_back
  give_back-restores [] law h b = plus_zero _ ∙ sym (h.exact b)
  give_back-restores (item ∷ rest) law h b =
      give_back-restores rest law (release-Reserved item rest law h) b
