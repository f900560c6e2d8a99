-- ===== src/Book/Expand.antt =====
-- The end of `process_expand_intent_book` (src/processor/instrument.rs): the pool has grown, and the
-- new slots are linked into the free list.
use polyleverage.Base.{
  ℕ, zero, suc, ◌+◌, ◌++◌, length, leb, set, replicate, u32_max, checked_add, if◌then◌else◌,
}
use polyleverage.Error.{custom, panic, arithmetic_overflow}
use polyleverage.Method.{ok, err, ⊤, Method, puts, gets, ok_or, ◌>>=◌, ◌>>◌}
use polyleverage.Book.{IntentBook, free_slot, null_idx}

-- The loop over the new indices; an index beyond the slice is a panic.
unfoldable pub link_new_nodes : (count idx : ℕ) → Method IntentBook ⊤
link_new_nodes zero idx b = (ok tt, b)
link_new_nodes (suc count) idx b =
    if leb (length b.nodes) idx
    then (err panic, b)
    else link_new_nodes count (idx + 1) (record {
      header = record b.header { freelist_head = idx };
      nodes = set b.nodes idx (free_slot b.header.freelist_head);
    })

-- From `realloc` on, which appends slots of zeros.
unfoldable pub expand_book : (additional_nodes : ℕ) → Method IntentBook ⊤
expand_book additional_nodes = do
  puts λ b. record b { nodes = b.nodes ++ replicate additional_nodes (free_slot null_idx) }
  old_capacity ← gets λ b. b.header.capacity
  capacity ← ok_or (checked_add u32_max old_capacity additional_nodes) (custom arithmetic_overflow)
  puts λ b. record b { header = record b.header { capacity = capacity } }
  link_new_nodes additional_nodes old_capacity
