-- ===== src/Inventory/Local/Atomic.antt =====
-- A batch reservation by the local client takes all of its items or nothing.
use my_bookstore.Inventory.Service
use my_bookstore.Inventory.Local.{
  local_client, reserve_all, release_all, reserve_loop, release_each,
}
use my_bookstore.Base.{Text, ◌⊎◌, false, refl, true, inr, ℤ_eq, inl, [], ◌∷◌, ◌++◌, ◌≡◌, List, ℤ}
use mathlib.Core.List.{append-nil, append_assoc}
use my_bookstore.Model.{InventoryMutation}
use my_bookstore.Inventory.{InventoryRepository}
use my_bookstore.Inventory.Laws.{IsLawful, IsStocked}
use my_bookstore.Inventory.Rollback.{give_back, give_back-restores}
use my_bookstore.Inventory.Reserved.{
  IsAtomic, Reserved, Reserved-nil, Reserved-same, concat-Reserved,
}

module _ {S : Type 0} (r : InventoryRepository S) where
  release_each-eq-give_back :
      (items : List InventoryMutation) (t : S)
      → release_each r items t ≡ give_back r.available_stock r.release_stock items t
  unfolding release_each give_back
  release_each-eq-give_back [] t = refl
  release_each-eq-give_back (item ∷ rest) t = release_each-eq-give_back rest _

  release_each-restores :
      (items : List InventoryMutation) {s t : S}
      → IsLawful r
      → Reserved r.available_stock items s t
      → (b : ℤ) → r.available_stock b (release_each r items t) ≡ r.available_stock b s
  release_each-restores items {t = t} law h b =
      rw (release_each-eq-give_back items t)
        (give_back-restores r.available_stock r.release_stock items law.release h b)

  reserve_loop-cases :
      (items reserved : List InventoryMutation) (s t : S)
      → IsLawful r
      → Reserved r.available_stock reserved s t
      → let (taken, u) = reserve_loop r items reserved t in
        ((taken ≡ false) × ((b : ℤ) → r.available_stock b u ≡ r.available_stock b s))
        ⊎ ((taken ≡ true) × Reserved r.available_stock (reserved ++ items) s u)
  unfolding reserve_loop
  reserve_loop-cases [] reserved s t law h = inr (refl, rw (append-nil reserved) h)
  reserve_loop-cases (item ∷ items) reserved s t law h =
      elim (law.reserve item.book_id item.quantity t h.remains) [
        | inl (e, same) ↦ rw e (
            inl (refl, release_each-restores reserved law (Reserved-same r.available_stock same h)))
        | inr (e, took) ↦ rw e (
            rw (append_assoc reserved (item ∷ []) items) at (
              reserve_loop-cases items (reserved ++ item ∷ []) s _ law
                (concat-Reserved r.available_stock item h took)))
      ]

  -- Over a lawful repository whose counts are in range, a batch of the local client takes
  -- everything or nothing: when it is refused every count is as before; when it is granted each
  -- count has gone down by exactly what the batch asks of that book.
  pub reserve_all-atomic :
      (id : Text) (items : List InventoryMutation) (s : S)
      → IsLawful r
      → IsStocked r.available_stock s
      → let (taken, t) = reserve_all r id items s in
        ((taken ≡ false) × ((b : ℤ) → r.available_stock b t ≡ r.available_stock b s))
        ⊎ ((taken ≡ true) × Reserved r.available_stock items s t)
  unfolding reserve_all
  reserve_all-atomic id items s law h =
      reserve_loop-cases items [] s s law (Reserved-nil r.available_stock s h)

  -- Over a lawful repository whose counts are in range, releasing a granted batch restores every
  -- count.
  pub release_all-reserve_all :
      (id id' : Text) (items : List InventoryMutation) (s : S)
      → IsLawful r
      → IsStocked r.available_stock s
      → (reserve_all r id items s).0 ≡ true
      → (b : ℤ)
      → r.available_stock b (release_all r id' items (reserve_all r id items s).1)
        ≡ r.available_stock b s
  unfolding release_all
  release_all-reserve_all id id' items s law h e = elim (reserve_all-atomic id items s law h) [
    | inl (refused, _) ↦ absurd (cc (refused, e))
    | inr (_, held) ↦ release_each-restores items law held
  ]

  -- The local client of a lawful repository is atomic.
  pub local_client-IsAtomic : IsLawful r → IsAtomic (local_client r)
  unfolding Service.available_stock Service.release_stock release_all
  local_client-IsAtomic law = record {
    reserve = λ id items s. reserve_all-atomic id items s law;
    release = λ id items s t. release_each-restores items law;
    release_one = law.release;
  }
