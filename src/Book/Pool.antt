-- ===== src/Book/Pool.antt =====
-- The free list of the book's nodes.
pub mod Use
use polyleverage.Base.{
  ℕ, zero, suc, ◌+◌, ◌≤◌, ◌<◌, ◌≡◌, ◌≢◌, ◌↔◌, ◌⊎◌, inl, inr, refl, sym, ap, ◌∙◌, subst, Bool, true,
  false, ◌||◌, Option, none, some, List, [], ◌∷◌, arith, length, get_elem?, set, leb, ltb, ◌==◌,
  ◌!=◌, ==_iff, if◌then◌else◌, contains, Distinct, u32_max, length-set, get_elem?-set,
  get_elem?-set_other, get_elem?_within, Bool-cases, get_elem?_found,
}
use polyleverage.Error.{custom, intent_book_full}
use polyleverage.Method.{Result, ok, err, ⊤, Method, ◌>>=◌}
use polyleverage.Book.{
  IntentBook, IntentBookHeader, RawNode, free_slot, null_idx, next_free, alloc_node, free_node,
  write_slot,
}

-- The free list, from an index on: slots that were in use, each with the next one's index.
abbrev pub Chain : IntentBook → List ℕ → ℕ → Type 0
Chain b [] head = head ≡ null_idx
Chain b (k ∷ ks) head =
    (head ≡ k)
    × (k ≢ null_idx)
    × (k < b.header.node_count)
    × ((slot : RawNode) × (get_elem? b.nodes k ≡ some slot) × Chain b ks (next_free slot))

-- A pool whose free slots are the ones listed.
pub record IsValid (free : List ℕ) (b : IntentBook) : Type 0 where
  pub chain : Chain b free b.header.freelist_head
  pub distinct : Distinct free
  pub sentinel : 1 ≤ b.header.node_count
  pub bounded : b.header.node_count ≤ b.header.capacity
  pub within : b.header.capacity ≤ length b.nodes
  pub word : b.header.capacity ≤ u32_max

-- An index that is in use.
abbrev pub Taken : List ℕ → IntentBook → ℕ → Type 0
Taken free b i = (i ≢ null_idx) × (i < b.header.node_count) × (contains i free ≡ false)

-- A pool with other nodes in slots that are not free, and more slots in use, has the same chain.
Chain-same :
    (b c : IntentBook) (ks : List ℕ) (head : ℕ)
    → ((k : ℕ) → contains k ks ≡ true → get_elem? c.nodes k ≡ get_elem? b.nodes k)
    → b.header.node_count ≤ c.header.node_count
    → Chain b ks head
    → Chain c ks head
Chain-same b c [] head same more h = h
Chain-same b c (k ∷ ks) head same more (here, nonnull, below, (slot, found, rest)) = (
  here,
  nonnull,
  omega arith,
  (
    slot,
    same k (ground arith) ∙ found,
    Chain-same b c ks (next_free slot) (λ j m. same j (ground arith)) more rest,
  ),
)

-- What allocation does: the book is full and stays, or the index handed out is in range, was not in
-- use, and is now in use along with all that were.
pub data Allocates (free : List ℕ) (b : IntentBook) : Result ℕ × IntentBook → Type 0 where
  full :
      free ≡ []
      → b.header.node_count ≡ b.header.capacity
      → Allocates free b (err (custom intent_book_full), b)
  handed_out :
      (idx : ℕ) (rest : List ℕ) (c : IntentBook)
      → c.nodes ≡ b.nodes
      → idx < length b.nodes
      → ¬ (Taken free b idx)
      → IsValid rest c
      → ((i : ℕ) → Taken rest c i ↔ ((i ≡ idx) ⊎ Taken free b i))
      → Allocates free b (ok idx, c)

-- The book with its first free node taken off the list, and the book with one more slot in use.
abbrev popped : IntentBook → ℕ → IntentBook
popped b next = record b { header = record b.header { freelist_head = next } }

abbrev grown : IntentBook → IntentBook
grown b = record b { header = record b.header { node_count = b.header.node_count + 1 } }

alloc_node-popped :
    (b : IntentBook) (slot : RawNode)
    → b.header.freelist_head ≢ null_idx
    → get_elem? b.nodes b.header.freelist_head ≡ some slot
    → alloc_node b ≡ (ok b.header.freelist_head, popped b (next_free slot))
unfolding alloc_node
alloc_node-popped b slot nonnull found = ground arith

alloc_node-grown :
    (b : IntentBook)
    → b.header.freelist_head ≡ null_idx
    → b.header.node_count < b.header.capacity
    → b.header.capacity ≤ u32_max
    → alloc_node b ≡ (ok b.header.node_count, grown b)
unfolding alloc_node
alloc_node-grown b none_free room word = ground arith

alloc_node-full :
    (b : IntentBook)
    → b.header.freelist_head ≡ null_idx
    → b.header.capacity ≤ b.header.node_count
    → alloc_node b ≡ (err (custom intent_book_full), b)
unfolding alloc_node
alloc_node-full b none_free no_room = ground arith

pub alloc_node-Allocates :
    (free : List ℕ) (b : IntentBook) → IsValid free b → Allocates free b (alloc_node b)
alloc_node-Allocates [] b v = elim (Bool-cases (leb b.header.capacity b.header.node_count)) [
  | inl e ↦
      subst (Allocates [] b) (sym (alloc_node-full b v.chain (ground arith)))
        (full refl (ground (arith, v.bounded)))
  | inr e ↦ subst (Allocates [] b) (sym (alloc_node-grown b v.chain (ground arith) v.word)) (
      handed_out b.header.node_count [] (grown b) refl (ground (arith, v.within))
        (λ (nonnull, below, unlisted). omega arith)
        (record {
          chain = v.chain;
          distinct = v.distinct;
          sentinel = omega arith;
          bounded = ground arith;
          within = v.within;
          word = v.word;
        })
        (λ i. ground (arith, v.sentinel)))
]
alloc_node-Allocates (k ∷ ks) b v =
    let (here, nonnull, below, (slot, found, rest)) = v.chain in
    let idx = b.header.freelist_head in
    let at : get_elem? b.nodes idx ≡ some slot = ap (get_elem? b.nodes) here ∙ found in
    subst (Allocates (k ∷ ks) b) (sym (alloc_node-popped b slot (λ e. nonnull (sym here ∙ e)) at)) (
      handed_out idx ks (popped b (next_free slot)) refl (ground (arith, v.bounded, v.within))
        (λ (nonnull', below', unlisted). ground arith)
        (record {
          chain =
              Chain-same b (popped b (next_free slot)) ks (next_free slot) (λ j m. refl)
                (omega arith) rest;
          distinct = v.distinct.1;
          sentinel = v.sentinel;
          bounded = v.bounded;
          within = v.within;
          word = v.word;
        })
        (λ i. ground (arith, v.distinct)))

-- The book with a slot at the front of the free list.
abbrev pushed : IntentBook → ℕ → IntentBook
pushed b idx = record {
  header = record b.header { freelist_head = idx };
  nodes = set b.nodes idx (free_slot b.header.freelist_head);
}

-- A write to a slot that is not free keeps the chain.
Chain-set :
    (b : IntentBook) (h : IntentBookHeader) (free : List ℕ) (idx head : ℕ) (slot : RawNode)
    → b.header.node_count ≤ h.node_count
    → contains idx free ≡ false
    → Chain b free head
    → Chain (record { header = h; nodes = set b.nodes idx slot }) free head
Chain-set b h free idx head slot more unlisted =
    Chain-same b (record { header = h; nodes = set b.nodes idx slot }) free head
      (λ k listed.
        get_elem?-set_other b.nodes idx k slot
          (λ e. differ (subst (λ j. contains j free ≡ true) (sym e) listed)))
      more
  where
    differ : contains idx free ≡ true → ⊥
    differ listed = cc

-- A slot that is in use goes back to the front of the free list; the other nodes stay.
pub free_node-IsValid :
    (free : List ℕ) (b : IntentBook) (idx : ℕ)
    → IsValid free b
    → Taken free b idx
    → (c : IntentBook) × (free_node idx b ≡ (ok tt, c))
      × IsValid (idx ∷ free) c
      × ((i : ℕ) → idx ≢ i → get_elem? c.nodes i ≡ get_elem? b.nodes i)
      × ((i : ℕ) → Taken (idx ∷ free) c i ↔ ((i ≢ idx) × Taken free b i))
unfolding free_node next_free
free_node-IsValid free b idx v (nonnull, below, unlisted) =
    let room : idx < length b.nodes = ground (arith, v.bounded, v.within) in
    let c = pushed b idx in
    (
      c,
      ground arith,
      record {
        chain = (
          refl,
          nonnull,
          below,
          (
            free_slot b.header.freelist_head,
            get_elem?-set b.nodes idx (free_slot b.header.freelist_head) room,
            Chain-set b c.header free idx b.header.freelist_head _ (omega arith) unlisted v.chain,
          ),
        );
        distinct = (unlisted, v.distinct);
        sentinel = v.sentinel;
        bounded = v.bounded;
        within = subst (λ n. b.header.capacity ≤ n) (sym (length-set b.nodes idx _)) v.within;
        word = v.word;
      },
      λ i other. get_elem?-set_other b.nodes idx i _ other,
      λ i. ground arith,
    )

-- A write to a slot that is in use leaves the free list.
pub write_slot-IsValid :
    (free : List ℕ) (b : IntentBook) (idx : ℕ) (slot : RawNode)
    → IsValid free b
    → Taken free b idx
    → (c : IntentBook) × (write_slot idx slot b ≡ (ok tt, c))
      × IsValid free c
      × (c.header ≡ b.header)
      × (get_elem? c.nodes idx ≡ some slot)
unfolding write_slot
write_slot-IsValid free b idx slot v (nonnull, below, unlisted) =
    let room : idx < length b.nodes = ground (arith, v.bounded, v.within) in
    (
      record b { nodes = set b.nodes idx slot },
      ground arith,
      record {
        chain =
            Chain-set b b.header free idx b.header.freelist_head slot (omega arith) unlisted
              v.chain;
        distinct = v.distinct;
        sentinel = v.sentinel;
        bounded = v.bounded;
        within = subst (λ n. b.header.capacity ≤ n) (sym (length-set b.nodes idx slot)) v.within;
        word = v.word;
      },
      refl,
      get_elem?-set b.nodes idx slot room,
    )
