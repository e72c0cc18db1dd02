-- ===== src/Catalog/Local.antt =====
-- `LocalBookClient` of src/app/client/local_book_client.h: the service, called in the process.
use my_bookstore.Catalog.{BookRepository, BookClient}
use my_bookstore.Catalog.Service

abbrev pub local_client : {S : Type 0} → BookRepository S → BookClient S
local_client r = record {
  list_books = Service.list_books r;
  find_book = Service.find_book r;
  create_book = Service.create_book r;
  update_book = Service.update_book r;
}
