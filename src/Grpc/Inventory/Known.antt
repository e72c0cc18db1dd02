-- ===== src/Grpc/Inventory/Known.antt =====
-- What the batch `reserve_stock` over gRPC tells: src/app/grpc/inventory_grpc_service.cpp and
-- src/app/client/grpc_inventory_client.cpp.
use my_bookstore.Base.{
  wrap32, none, ap, if◌then◌else◌, ℤ, Option, ◌∙◌, wrap32_id, IsInt, arith, refl, [], is_some,
  leb_ℤ, ◌&&◌, ◌<ℤ◌, pos, some, true, ◌∷◌, All, Bool, false, is_empty, ◌≡◌, List, Text,
}
use my_bookstore.Model.{InventoryMutation, InventoryItem}
use my_bookstore.Inventory.{InventoryRepository}
use my_bookstore.Grpc.{Code, Answer, Text, if_ok, answered, failed}
use my_bookstore.Grpc.Inventory.{List, read_items}
use my_bookstore.Grpc.Inventory.Remote
use my_bookstore.Grpc.Inventory.Client
use my_bookstore.Grpc.Inventory.Client.{Channel}

module _ {S : Type 0} (r : InventoryRepository S) where
  -- Every book of the batch has an amount.
  abbrev pub all_known : List InventoryMutation → S → Bool
  all_known [] s = true
  all_known (item ∷ rest) s = is_some (r.available_stock item.book_id s) && all_known rest s

  -- A batch of positive numbers that fit `int`.
  abbrev pub IsValid : List InventoryMutation → Type 0
  IsValid = All (λ item. (pos 0 <ℤ item.book_id) × ((pos 0 <ℤ item.quantity) × IsInt item.book_id))

  read_items-IsValid :
      (items : List InventoryMutation) → IsValid items → read_items items ≡ some items
  unfolding read_items
  read_items-IsValid [] h = refl
  read_items-IsValid (item ∷ rest) h =
      let book_id : leb_ℤ item.book_id (pos 0) ≡ false = ground (arith, h.0.0) in
      let quantity : leb_ℤ item.quantity (pos 0) ≡ false = ground (arith, h.0.1.0) in
      rw (read_items-IsValid rest h.1, book_id, quantity, wrap32_id item.book_id h.0.1.1) refl

  joined :
      (o : Option ℤ) (b : ℤ) (code : Code) (message : Text) (more : Answer (List InventoryItem))
      → if_ok false
          (λ found. true)
          (elim (elim o as (λ x. Answer InventoryItem) [
            | none ↦ failed code message
            | some stock ↦ answered (record { book_id = b; available = stock })
          ])
            as (λ x. Answer (List InventoryItem)) [
              | failed c m ↦ failed c m
              | answered current ↦ elim more as (λ x. Answer (List InventoryItem)) [
                | failed c m ↦ failed c m
                | answered items ↦ answered (current ∷ items)
              ]
            ])
        ≡ (is_some o && if_ok false (λ found. true) more)
  joined none b code message more = refl
  joined (some stock) b code message (answered items) = refl
  joined (some stock) b code message (failed c m) = refl

  reported :
      (taken : Bool) (found other : Answer (List InventoryItem)) (s : S) (c : Channel S)
      → if_ok false (λ items. true) other ≡ false
      → Path
          (Bool × Channel S)
          (
            if_ok false
                (λ items. true)
                (if◌then◌else◌ {A = Answer (List InventoryItem) × S} taken (found, s) (other, s)).0,
            record c {
              remote =
                  (if◌then◌else◌ {A = Answer (List InventoryItem) × S} taken
                    (found, s)
                    (other, s)).1;
            },
          )
          (taken && if_ok false (λ items. true) found, record c { remote = s })
  reported true found other s c e = refl
  reported false found other s c e = ap (λ b. (b, record c { remote = s })) e

  append_items-all_known :
      (items : List InventoryMutation) (s : S)
      → IsValid items
      → if_ok false (λ found. true) (Remote.append_items r items s) ≡ all_known items s
  unfolding Remote.append_items Remote.append_current_item
  append_items-all_known [] s h = refl
  append_items-all_known (item ∷ rest) s h =
      rw (wrap32_id item.book_id h.0.1.1, if_ok, Remote.append_items)
        (joined (r.available_stock item.book_id s) (wrap32 item.book_id) _ _
            (Remote.append_items r rest s)
          ∙ ap (λ b. is_some (r.available_stock item.book_id s) && b)
              (append_items-all_known rest s h.1))

  -- A valid batch under a name, over a channel that loses nothing: the service reserves it, and the
  -- client is told of it only if every book has an amount then.
  pub reserve_all-stub :
      (id : Text) (item : InventoryMutation) (rest : List InventoryMutation) (c : Channel S)
      → is_empty id ≡ false
      → IsValid (item ∷ rest)
      → let items = item ∷ rest in
        let (taken, s) = r.reserve_all id items c.remote in
        Client.reserve_all (Remote.stub r) id items c
        ≡ (taken && all_known items s, record c { remote = s })
  unfolding Client.reserve_all Remote.reserve_inventory
  reserve_all-stub id item rest c e h =
      rw (e, read_items-IsValid (item ∷ rest) h)
        (reported (r.reserve_all id (item ∷ rest) c.remote).0 _ _
            (r.reserve_all id (item ∷ rest) c.remote).1 c refl
          ∙ ap
              (λ b. (
                (r.reserve_all id (item ∷ rest) c.remote).0 && b,
                record c { remote = (r.reserve_all id (item ∷ rest) c.remote).1 },
              ))
              (append_items-all_known (item ∷ rest) (r.reserve_all id (item ∷ rest) c.remote).1 h))
