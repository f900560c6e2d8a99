-- ===== src/Accounts/Books.antt =====
-- The account of a book, whose size is not fixed: `BookMut::load` of src/state/intent_book.rs.
use polyleverage.Base.{ℕ, ◌+◌, ◌*◌, none, some, List, [], ◌∷◌, length, ltb, ◌!=◌, if◌then◌else◌}
use polyleverage.Error.{ProgramError, custom, account_data_too_small, not_initialized}
use polyleverage.Method.{Result, ok, err, ⊤, Method, reads, ◌>>◌}
use polyleverage.Book.{IntentBook, disc_intent_book}
use polyleverage.Accounts.{
  World, Contents, margin, market_nonce, pmlc, program_config, instrument, multisig, timelock,
  session, fee_schedule, fee_treasury, user_volume, book, token_data, other, load, on, book_layout,
}

abbrev pub intent_book_header_len : ℕ
intent_book_header_len = 120

abbrev pub node_size : ℕ
node_size = 96

-- `data_len()`, the sizes as src/state/ declares them.
abbrev pub data_len : Contents → ℕ
data_len (margin m) = 144
data_len (market_nonce n) = 104
data_len (pmlc p) = 304
data_len (program_config p) = 176
data_len (instrument i) = 264
data_len (multisig v) = 624
data_len (timelock t) = 168
data_len (session s) = 440
data_len (fee_schedule x) = 184
data_len (fee_treasury x) = 88
data_len (user_volume x) = 136
data_len (book b) = intent_book_header_len + node_size * length b.nodes
data_len (token_data bytes) = 165
data_len (other size first_byte) = size

abbrev first_of : List ℕ → ℕ
first_of [] = 0
first_of (x ∷ _) = x

-- `data[0]`, which is the discriminator of the program's own types.
abbrev pub first_byte_of : Contents → ℕ
first_byte_of (margin m) = m.discriminator
first_byte_of (market_nonce n) = n.discriminator
first_byte_of (pmlc p) = p.discriminator
first_byte_of (program_config p) = p.discriminator
first_byte_of (instrument i) = i.discriminator
first_byte_of (multisig v) = v.discriminator
first_byte_of (timelock t) = t.discriminator
first_byte_of (session s) = s.discriminator
first_byte_of (fee_schedule x) = x.discriminator
first_byte_of (fee_treasury x) = x.discriminator
first_byte_of (user_volume x) = x.discriminator
first_byte_of (book b) = b.header.discriminator
first_byte_of (token_data bytes) = first_of bytes
first_byte_of (other size first_byte) = first_byte

-- The error for contents of a size that no book has: too small for the header, or marked as no book,
-- or with a pool that is not a whole number of nodes.
abbrev no_book : Contents → ProgramError
no_book c =
    if ltb (data_len c) intent_book_header_len
    then custom account_data_too_small
    else if first_byte_of c != disc_intent_book
    then custom not_initialized
    else custom account_data_too_small

unfoldable pub check_book_size : ℕ → World → Result ⊤
check_book_size k w = elim (book_layout.view (w k).contents) [
  | none ↦ err (no_book (w k).contents)
  | some _ ↦ ok tt
]

-- `BookMut::load` and `BookRef::load`.
unfoldable pub load_book : ℕ → Method World IntentBook
load_book k = do reads (check_book_size k); reads (load book_layout k)

-- Calls on the book that `BookMut::load` returns, in place.
unfoldable pub on_book : {A : Type 0} → ℕ → Method IntentBook A → Method World A
on_book k m = do reads (check_book_size k); on book_layout k m
