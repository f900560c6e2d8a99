-- ===== src/Book.antt =====
-- The book of an instrument (src/state/intent_book.rs): a header and a pool of nodes that the two
-- intent trees, the seat tree and the free list share. Padding and reserved bytes are left out.
pub mod Pool
pub mod Expand
pub mod RedBlack
pub mod IntentTree
pub mod SeatTree
use polyleverage.Base.{
  ℕ, suc, ◌+◌, ◌≡◌, Bool, true, false, ◌||◌, Option, none, some, List, [], ◌∷◌, length, get_elem?,
  set, replicate, leb, ltb, ◌==◌, ◌!=◌, if◌then◌else◌, u32_max, u64_max, checked_add,
}
use polyleverage.Error.{
  ProgramError, custom, panic, invalid_account_data, intent_book_full, arithmetic_overflow,
  intent_not_found, account_data_too_small,
}
use polyleverage.Method.{
  Result, ok, err, ⊤, Method, pure, raise, reads, lift, ok_or, puts, fail_if, ◌>>=◌, ◌>>◌,
}

abbrev pub disc_intent_book : ℕ
disc_intent_book = 4

abbrev pub rb_red : ℕ
rb_red = 0

abbrev pub rb_black : ℕ
rb_black = 1

abbrev pub side_long : ℕ
side_long = 0

abbrev pub side_short : ℕ
side_short = 1

-- Index 0 is the sentinel.
abbrev pub null_idx : ℕ
null_idx = 0

pub record IntentBookHeader : Type 0 where
  pub discriminator : ℕ
  pub bump : ℕ
  pub instrument : ℕ
  pub long_tree_root : ℕ
  pub short_tree_root : ℕ
  pub seat_tree_root : ℕ
  pub freelist_head : ℕ
  pub node_count : ℕ
  pub capacity : ℕ
  pub next_intent_id : ℕ
  pub next_seq : ℕ
  pub cached_max_fee_bps : ℕ

pub record IntentNode : Type 0 where
  pub side : ℕ
  pub color : ℕ
  pub flags : ℕ
  pub left : ℕ
  pub right : ℕ
  pub parent : ℕ
  pub price_fp : ℕ
  pub id : ℕ
  pub owner_seat : ℕ
  pub contracts_total : ℕ
  pub contracts_remaining : ℕ
  pub expiration_slot : ℕ
  pub post_seq : ℕ
  pub reserved_collateral : ℕ
  pub fee_buffer : ℕ

pub record SeatNode : Type 0 where
  pub color : ℕ
  pub left : ℕ
  pub right : ℕ
  pub parent : ℕ
  pub trader : ℕ
  pub active_intent_count : ℕ
  pub flags : ℕ

-- A slot of the pool, by its tag. A slot of zeros is a free node without a successor, and no code
-- writes a tag of another kind.
pub data RawNode : Type 0 where
  free_slot : (next_free : ℕ) → RawNode
  intent_slot : IntentNode → RawNode
  seat_slot : SeatNode → RawNode

-- `BookMut`
pub record IntentBook : Type 0 where
  pub header : IntentBookHeader
  pub nodes : List RawNode

-- Bytes 4 to 7 of a slot, which `FreeNode` calls `next_free`; in the other kinds of node the left
-- child has them.
unfoldable pub next_free : RawNode → ℕ
next_free (free_slot n) = n
next_free (intent_slot n) = n.left
next_free (seat_slot n) = n.left

unfoldable pub as_intent : RawNode → Option IntentNode
as_intent (intent_slot n) = some n
as_intent _ = none

unfoldable pub as_seat : RawNode → Option SeatNode
as_seat (seat_slot n) = some n
as_seat _ = none

-- A node of the free list, if there is one; else the first slot never used. An index beyond the
-- slice is a panic.
unfoldable pub alloc_node : Method IntentBook ℕ
unfolding next_free
alloc_node b =
    let h = b.header in
    if h.freelist_head != null_idx
    then elim (get_elem? b.nodes h.freelist_head) [
      | none ↦ (err panic, b)
      | some slot ↦
          (ok h.freelist_head, record b { header = record h { freelist_head = next_free slot } })
    ]
    else if leb h.capacity h.node_count
    then (err (custom intent_book_full), b)
    else elim (checked_add u32_max h.node_count 1) [
      | none ↦ (err (custom arithmetic_overflow), b)
      | some n ↦ (ok h.node_count, record b { header = record h { node_count = n } })
    ]

unfoldable pub free_node : ℕ → Method IntentBook ⊤
free_node idx b =
    if idx == null_idx || leb (length b.nodes) idx then (err invalid_account_data, b) else (
      ok tt,
      record {
        header = record b.header { freelist_head = idx };
        nodes = set b.nodes idx (free_slot b.header.freelist_head);
      },
    )

-- `slot.as_…().ok_or_else(|| IntentNotFound)` on the slot of an index.
unfoldable pub node_as : {N : Type 0} → (RawNode → Option N) → ℕ → IntentBook → Result N
node_as view idx b = elim (get_elem? b.nodes idx) [
  | none ↦ err invalid_account_data
  | some slot ↦ elim (view slot) [ none ↦ err (custom intent_not_found) | some n ↦ ok n ]
]

unfoldable pub intent : ℕ → IntentBook → Result IntentNode
unfolding node_as as_intent
intent idx = node_as as_intent idx

unfoldable pub seat : ℕ → IntentBook → Result SeatNode
unfolding node_as as_seat
seat idx = node_as as_seat idx

-- A write of a whole slot.
unfoldable pub write_slot : ℕ → RawNode → Method IntentBook ⊤
write_slot idx slot b =
    if leb (length b.nodes) idx
    then (err invalid_account_data, b)
    else (ok tt, record b { nodes = set b.nodes idx slot })

unfoldable pub write_intent : ℕ → IntentNode → Method IntentBook ⊤
unfolding write_slot
write_intent idx node = write_slot idx (intent_slot node)

unfoldable pub write_seat : ℕ → SeatNode → Method IntentBook ⊤
unfolding write_slot
write_seat idx node = write_slot idx (seat_slot node)

unfoldable pub next_seq : Method IntentBook ℕ
next_seq b = elim (checked_add u64_max b.header.next_seq 1) [
  | none ↦ (err (custom arithmetic_overflow), b)
  | some n ↦ (ok b.header.next_seq, record b { header = record b.header { next_seq = n } })
]

unfoldable pub next_intent_id : Method IntentBook ℕ
next_intent_id b = elim (checked_add u64_max b.header.next_intent_id 1) [
  | none ↦ (err (custom arithmetic_overflow), b)
  | some n ↦
      (ok b.header.next_intent_id, record b { header = record b.header { next_intent_id = n } })
]

abbrev pub fresh_header : (instrument capacity bump cached_max_fee_bps : ℕ) → IntentBookHeader
fresh_header instrument capacity bump cached_max_fee_bps = record {
  discriminator = disc_intent_book;
  bump = bump;
  instrument = instrument;
  long_tree_root = null_idx;
  short_tree_root = null_idx;
  seat_tree_root = null_idx;
  freelist_head = null_idx;
  node_count = 1;
  capacity = capacity;
  next_intent_id = 1;
  next_seq = 1;
  cached_max_fee_bps = cached_max_fee_bps;
}

-- `init_intent_book` on an account of the size for `slots` nodes.
unfoldable pub init_intent_book :
    (slots instrument capacity bump cached_max_fee_bps : ℕ) → Result IntentBook
init_intent_book slots instrument capacity bump cached_max_fee_bps =
    if slots != capacity
    then err (custom account_data_too_small)
    else ok (record {
      header = fresh_header instrument capacity bump cached_max_fee_bps;
      nodes = replicate capacity (free_slot null_idx);
    })
