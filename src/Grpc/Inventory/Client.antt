-- ===== src/Grpc/Inventory/Client.antt =====
-- `GrpcInventoryClient` of src/app/client/grpc_inventory_client.cpp.
use my_bookstore.Base.{
  digits, some, true, [], false, none, ◌++◌, ◌^◌, Bool, List, Option, codes, ◌%◌, ◌∷◌, Text, ℤ, ◌+◌,
  ℕ,
}
use my_bookstore.Grpc.Inventory.{InventoryStub}
use my_bookstore.Grpc.{if_ok}
use my_bookstore.Model.{InventoryMutation}
use my_bookstore.Inventory.{InventoryClient}

-- The client's counter `next_id_`, and the state behind the channel.
pub record Channel (S : Type 0) : Type 0 where
  pub next_id : ℕ
  pub remote : S

module _ {S : Type 0} (stub : InventoryStub S) where
  unfoldable pub available_stock : ℤ → Channel S → Option ℤ
  available_stock book_id c =
      if_ok none (λ item. some item.available) (stub.get_inventory book_id c.remote)

  unfoldable pub add_stock : ℤ → ℤ → Channel S → Option ℤ × Channel S
  add_stock book_id quantity c =
      let (answer, s) =
        stub.inbound_inventory (record { book_id = book_id; quantity = quantity }) c.remote in
      (if_ok none (λ item. some item.available) answer, record c { remote = s })

  unfoldable pub reserve_all : Text → List InventoryMutation → Channel S → Bool × Channel S
  reserve_all reservation_id items c =
      let (answer, s) =
        stub.reserve_inventory (record { reservation_id = reservation_id; items = items })
          c.remote in
      (if_ok false (λ items. true) answer, record c { remote = s })

  unfoldable pub release_all : Text → List InventoryMutation → Channel S → Channel S
  release_all reservation_id items c =
      let (answer, s) =
        stub.release_inventory (record { reservation_id = reservation_id; items = items })
          c.remote in
      record c { remote = s }

  unfoldable pub next_reservation_id : ℕ → Text
  next_reservation_id n = codes "gateway-" ++ digits n

  -- `next_id_.fetch_add(1)`
  unfoldable pub count_up : Channel S → Channel S
  count_up c = record c { next_id = (c.next_id + 1) % 2 ^ 64 }

  unfoldable pub reserve_stock : ℤ → ℤ → Channel S → Bool × Channel S
  unfolding reserve_all next_reservation_id count_up
  reserve_stock book_id quantity c =
      reserve_all (next_reservation_id c.next_id)
        (record { book_id = book_id; quantity = quantity } ∷ []) (count_up c)

  unfoldable pub release_stock : ℤ → ℤ → Channel S → Channel S
  unfolding release_all next_reservation_id count_up
  release_stock book_id quantity c =
      release_all (next_reservation_id c.next_id)
        (record { book_id = book_id; quantity = quantity } ∷ []) (count_up c)

  abbrev pub remote_client : InventoryClient (Channel S)
  remote_client = record {
    available_stock = available_stock;
    add_stock = add_stock;
    reserve_stock = reserve_stock;
    release_stock = release_stock;
    reserve_all = reserve_all;
    release_all = release_all;
  }
