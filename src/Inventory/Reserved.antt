-- ===== src/Inventory/Reserved.antt =====
-- What it means that a batch was reserved between two states, and one more item reserved.
use my_bookstore.Inventory.{InventoryClient}
use my_bookstore.Base.{
  ◌⊎◌, false, Text, sym, ◌∙◌, int_eq_iff, refl, subst, All-append, none, true, ◌-ℤ◌, ap, Option,
  inr, ℤ_eq, int_laws, if◌then◌else◌, inl, ◌+ℤ◌, ◌==◌, Bool-cases, [], arith, some, ◌∷◌, ◌++◌, ◌<ℤ◌,
  ◌≡◌, ◌≤ℤ◌, All, pos, List, ℤ,
}
use my_bookstore.Model.{InventoryMutation}
use my_bookstore.Inventory.Laws.{Releases, IsStocked, Took, demand, plus, left_in_range}

-- Every item of a batch has a positive quantity.
abbrev pub IsPositive : List InventoryMutation → Type 0
IsPositive = All (λ item. pos 0 <ℤ item.quantity)

pub demand_nonneg :
    (b : ℤ) (items : List InventoryMutation) → IsPositive items → pos 0 ≤ℤ demand b items
demand_nonneg b [] p = omega arith
demand_nonneg b (item ∷ rest) p = elim (Bool-cases (item.book_id == b)) [
  | inl e ↦ rw e (omega (int_laws, demand_nonneg b rest p.1, p.0))
  | inr e ↦ rw e (omega (int_laws, demand_nonneg b rest p.1))
]

pub demand-concat :
    (b : ℤ) (items : List InventoryMutation) (item : InventoryMutation)
    → demand b (items ++ item ∷ [])
      ≡ demand b items +ℤ (if item.book_id == b then item.quantity else pos 0)
demand-concat b [] item = omega int_laws
demand-concat b (x ∷ items) item = rw (demand-concat b items item) (omega int_laws)

pub plus_zero : (o : Option ℤ) → o ≡ plus (pos 0) o
plus_zero none = refl
plus_zero (some v) = ap some (omega int_laws)

abbrev pub Known : {S : Type 0} → (ℤ → S → Option ℤ) → S → ℤ → Type 0
Known stock s b = (w : ℤ) × (stock b s ≡ some w)

module _ {S : Type 0} (stock : ℤ → S → Option ℤ) where
  -- `items` were reserved between `s` and `t`.
  pub record Reserved (items : List InventoryMutation) (s t : S) : Type 0 where
    pub exact : (b : ℤ) → stock b s ≡ plus (demand b items) (stock b t)
    pub positive : IsPositive items
    pub known : All (λ item. Known stock t item.book_id) items
    pub stocked : IsStocked stock s
    pub remains : IsStocked stock t

  pub Reserved-nil : (s : S) → IsStocked stock s → Reserved [] s s
  Reserved-nil s h = record {
    exact = λ b. plus_zero (stock b s);
    positive = tt;
    known = tt;
    stocked = h;
    remains = h;
  }

  pub Known-mono :
      (t u : S) (items : List InventoryMutation)
      → ((b w : ℤ) → stock b t ≡ some w → Known stock u b)
      → All (λ item. Known stock t item.book_id) items
      → All (λ item. Known stock u item.book_id) items
  Known-mono t u [] f h = tt
  Known-mono t u (item ∷ items) f ((w, e), h) = (f item.book_id w e, Known-mono t u items f h)

  -- Only the counts matter.
  pub Reserved-same :
      {items : List InventoryMutation} {s t u : S}
      → ((b : ℤ) → stock b u ≡ stock b t)
      → Reserved items s t
      → Reserved items s u
  Reserved-same {items} {s} {t} {u} same h = record {
    exact = λ b. h.exact b ∙ ap (plus (demand b items)) (sym (same b));
    positive = h.positive;
    known = Known-mono t u items (λ b w e. (w, same b ∙ e)) h.known;
    stocked = h.stocked;
    remains = λ b v e. h.remains b v (sym (same b) ∙ e);
  }

  module _ {s t u : S} {items : List InventoryMutation} (item : InventoryMutation)
      (before : Reserved items s t) (took : Took stock item.book_id item.quantity t u) where
    took_at : (b : ℤ) → (item.book_id == b) ≡ true → stock b t ≡ some took.had
    took_at b e = subst (λ j. stock j t ≡ some took.had) ((int_eq_iff _ _).0 e) took.before

    concat-exact : (b : ℤ) → stock b s ≡ plus (demand b (items ++ item ∷ [])) (stock b u)
    concat-exact b = elim (Bool-cases (item.book_id == b)) [
      | inl e ↦
          rw (demand-concat b items item, took.after b, before.exact b, took_at b e, e)
            (ap some (omega int_laws))
      | inr e ↦
          rw (demand-concat b items item, took.after b, before.exact b, e)
            (ap (λ d. plus d (stock b t)) (omega int_laws))
    ]

    concat-Known : (b w : ℤ) → stock b t ≡ some w → Known stock u b
    concat-Known b w h = elim (Bool-cases (item.book_id == b)) [
      | inl e ↦ (took.had -ℤ item.quantity, rw (took.after b, e) refl)
      | inr e ↦ (w, rw (took.after b, e) h)
    ]

    concat-remains : IsStocked stock u
    concat-remains b v h = elim (Bool-cases (item.book_id == b)) [
      | inl e ↦
          let left : v ≡ took.had -ℤ item.quantity = cc (h, took.after b, e) in
          rw left (
            left_in_range took.had item.quantity took.positive took.enough
              (before.remains item.book_id took.had took.before).1)
      | inr e ↦ before.remains b v (cc (h, took.after b, e))
    ]

    pub concat-Reserved : Reserved (items ++ item ∷ []) s u
    concat-Reserved = record {
      exact = concat-exact;
      positive = All-append _ items (item ∷ []) before.positive (took.positive, tt);
      known =
          All-append _ items (item ∷ []) (Known-mono t u items concat-Known before.known)
            (concat-Known item.book_id took.had took.before, tt);
      stocked = before.stocked;
      remains = concat-remains;
    }

-- What a client of the inventory relies on.
pub record IsAtomic {S : Type 0} (c : InventoryClient S) : Type 0 where
  pub reserve :
      (id : Text) (items : List InventoryMutation) (s : S)
      → IsStocked c.available_stock s
      → let (taken, t) = c.reserve_all id items s in
        ((taken ≡ false) × ((b : ℤ) → c.available_stock b t ≡ c.available_stock b s))
        ⊎ ((taken ≡ true) × Reserved c.available_stock items s t)
  pub release :
      (id : Text) (items : List InventoryMutation) (s t : S)
      → Reserved c.available_stock items s t
      → (b : ℤ) → c.available_stock b (c.release_all id items t) ≡ c.available_stock b s
  pub release_one : Releases c.available_stock c.release_stock
