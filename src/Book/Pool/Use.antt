-- ===== src/Book/Pool/Use.antt =====
-- Allocations, releases and writes of a book's nodes one after the other, without an expansion.
use polyleverage.Base.{
  ℕ, ◌≤◌, ◌<◌, ◌≡◌, ◌≢◌, ◌↔◌, ◌⊎◌, inl, inr, refl, subst, true, false, ◌&&◌, List, [], ◌∷◌, arith,
  length, replicate, ◌==◌, ◌!=◌, if◌then◌else◌, contains, Distinct, u32_max, Bool-cases,
  length-replicate,
}
use polyleverage.Error.{custom, intent_book_full}
use polyleverage.Method.{Result, ok, err}
use polyleverage.Book.{
  IntentBook, RawNode, free_slot, fresh_header, null_idx, alloc_node, free_node, write_slot,
  init_intent_book,
}
use polyleverage.Book.Pool.{
  IsValid, Taken, Allocates, full, handed_out, alloc_node-Allocates, free_node-IsValid,
  write_slot-IsValid,
}

abbrev pub without : ℕ → List ℕ → List ℕ
without x [] = []
without x (y ∷ ys) = if y == x then without x ys else y ∷ without x ys

contains-without : (i x : ℕ) (ys : List ℕ) → contains i (without x ys) ≡ (contains i ys && i != x)
contains-without i x [] = refl
contains-without i x (y ∷ ys) = ground (arith, contains-without i x ys)

Distinct-without : (x : ℕ) (ys : List ℕ) → Distinct ys → Distinct (without x ys)
Distinct-without x [] d = tt
Distinct-without x (y ∷ ys) (new, d) =
    ground (arith, contains-without y x ys, Distinct-without x ys d)

-- The books that a fresh book becomes as long as it is not expanded, with the indices that its users
-- hold: a user gets an index by an allocation, and releases or overwrites only an index that it holds.
pub data InUse : List ℕ → IntentBook → Type 0 where
  started :
      (capacity instrument bump max_fee : ℕ) (b : IntentBook)
      → 1 ≤ capacity
      → capacity ≤ u32_max
      → init_intent_book capacity instrument capacity bump max_fee ≡ ok b
      → InUse [] b
  allocated :
      (held : List ℕ) (b c : IntentBook) (idx : ℕ)
      → InUse held b
      → alloc_node b ≡ (ok idx, c)
      → InUse (idx ∷ held) c
  released :
      (held : List ℕ) (b c : IntentBook) (idx : ℕ)
      → InUse held b
      → contains idx held ≡ true
      → free_node idx b ≡ (ok tt, c)
      → InUse (without idx held) c
  written :
      (held : List ℕ) (b c : IntentBook) (idx : ℕ) (slot : RawNode)
      → InUse held b
      → contains idx held ≡ true
      → write_slot idx slot b ≡ (ok tt, c)
      → InUse held c

-- The free list is in order, and the slots in use are the ones that are held.
record Kept (held : List ℕ) (b : IntentBook) : Type 0 where
  free : List ℕ
  valid : IsValid free b
  distinct : Distinct held
  exact : (i : ℕ) → (contains i held ≡ true) ↔ Taken free b i

init-Kept :
    (capacity instrument bump max_fee : ℕ) (b : IntentBook)
    → 1 ≤ capacity
    → capacity ≤ u32_max
    → init_intent_book capacity instrument capacity bump max_fee ≡ ok b
    → Kept [] b
unfolding init_intent_book
init-Kept capacity instrument bump max_fee b some_room word h =
    let fresh : IntentBook = record {
      header = fresh_header instrument capacity bump max_fee;
      nodes = replicate capacity (free_slot null_idx);
    } in
    let e : fresh ≡ b = ground arith in
    subst (Kept []) e (record {
      free = [];
      valid = record {
        chain = refl;
        distinct = tt;
        sentinel = omega arith;
        bounded = some_room;
        within = omega (arith, length-replicate capacity (free_slot null_idx));
        word = word;
      };
      distinct = tt;
      exact = λ i. ground arith;
    })

alloc-Kept :
    (held : List ℕ) (b : IntentBook) (k : Kept held b) (p : Result ℕ × IntentBook) (idx : ℕ)
    (c : IntentBook)
    → Allocates k.free b p
    → p ≡ (ok idx, c)
    → Kept (idx ∷ held) c
alloc-Kept held b k _ idx c (full none_free no_room) e = cc
alloc-Kept held b k _ idx c (handed_out i rest d same room unused valid taken) e =
    let i_eq : i ≡ idx = cc in
    let d_eq : d ≡ c = cc in
    subst (λ j. Kept (j ∷ held) c) i_eq
      (subst (Kept (i ∷ held)) d_eq (record {
        free = rest;
        valid = valid;
        distinct = (
          elim (Bool-cases (contains i held)) [
            | inl listed ↦ absurd (unused ((k.exact i).0 listed))
            | inr new ↦ new
          ],
          k.distinct,
        );
        exact = λ j. grow j (k.exact j) (taken j);
      }))
  where
    grow :
        (j : ℕ)
        → ((contains j held ≡ true) ↔ Taken k.free b j)
        → (Taken rest d j ↔ ((j ≡ i) ⊎ Taken k.free b j))
        → (contains j (i ∷ held) ≡ true) ↔ Taken rest d j
    grow j before after = elim (Bool-cases (i == j)) [
      | inl here ↦ (λ _. after.1 (inl (ground arith)), λ _. ground arith)
      | inr there ↦ (
        λ listed. after.1 (inr (before.0 (ground arith))),
        λ is_taken. elim (after.0 is_taken) [
          | inl same_index ↦ ground arith
          | inr old ↦ let listed = before.1 old in ground arith
        ],
      )
    ]

InUse-Kept : (held : List ℕ) (b : IntentBook) → InUse held b → Kept held b
InUse-Kept held b (started capacity instrument bump max_fee _ room word h) =
    init-Kept capacity instrument bump max_fee b room word h
InUse-Kept held c (allocated before b _ idx u h) =
    let k = InUse-Kept before b u in
    alloc-Kept before b k (alloc_node b) idx c (alloc_node-Allocates k.free b k.valid) h
InUse-Kept held c (released before b _ idx u member h) =
    let k = InUse-Kept before b u in
    let (d, freed, valid, others, taken) =
      free_node-IsValid k.free b idx k.valid ((k.exact idx).0 member) in
    let d_eq : d ≡ c = cc in
    subst (Kept (without idx before)) d_eq (record {
      free = idx ∷ k.free;
      valid = valid;
      distinct = Distinct-without idx before k.distinct;
      exact = λ i. (
        λ listed.
            let both = contains-without i idx before in
            (taken i).1 (ground arith, (k.exact i).0 (ground arith)),
        λ is_taken.
            let (other, old) = (taken i).0 is_taken in
            let listed = (k.exact i).1 old in
            let both = contains-without i idx before in ground arith,
      );
    })
InUse-Kept held c (written _ b _ idx slot u member h) =
    let k = InUse-Kept held b u in
    let (d, done, valid, same, stored) =
      write_slot-IsValid k.free b idx slot k.valid ((k.exact idx).0 member) in
    let d_eq : d ≡ c = cc in
    subst (Kept held) d_eq (record {
      free = k.free;
      valid = valid;
      distinct = k.distinct;
      exact = λ i. rw same (k.exact i);
    })

-- As long as a book is not expanded, and its users only allocate nodes and release or write nodes that
-- they hold: no index is held twice, the sentinel is never handed out, and every index that is held
-- lies in the pool; and an allocation fails only if the book is full, that
-- is, if as many slots are in use as the header's capacity allows.
pub InUse-sound :
    (held : List ℕ) (b : IntentBook)
    → InUse held b
    → Distinct held
      × ((i : ℕ) → contains i held ≡ true → (i ≢ null_idx) × (i < length b.nodes))
      × (((idx : ℕ) × (c : IntentBook) × (alloc_node b ≡ (ok idx, c)) × (contains idx held ≡ false))
          ⊎ ((alloc_node b ≡ (err (custom intent_book_full), b))
              × ((i : ℕ) → i ≢ null_idx → i < b.header.capacity → contains i held ≡ true)))
InUse-sound held b u =
    let k = InUse-Kept held b u in
    (
      k.distinct,
      λ i listed.
          let (nonnull, below, unlisted) = (k.exact i).0 listed in
          (nonnull, omega (arith, k.valid.bounded, k.valid.within)),
      outcome k (alloc_node b) refl (alloc_node-Allocates k.free b k.valid),
    )
  where
    outcome :
        (k : Kept held b) (p : Result ℕ × IntentBook)
        → alloc_node b ≡ p
        → Allocates k.free b p
        → ((idx : ℕ) × (c : IntentBook) × (alloc_node b ≡ (ok idx, c))
            × (contains idx held ≡ false))
          ⊎ ((alloc_node b ≡ (err (custom intent_book_full), b))
              × ((i : ℕ) → i ≢ null_idx → i < b.header.capacity → contains i held ≡ true))
    outcome k _ e (full none_free no_room) =
        inr (e, λ i nonnull below. (k.exact i).1 (nonnull, omega arith, rw none_free refl))
    outcome k _ e (handed_out i rest d same room unused valid taken) = inl (
      i,
      d,
      e,
      elim (Bool-cases (contains i held)) [
        | inl listed ↦ absurd (unused ((k.exact i).0 listed))
        | inr new ↦ new
      ],
    )
