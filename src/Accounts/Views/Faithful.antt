-- ===== src/Accounts/Views/Faithful.antt =====
-- The layouts of the account types: reading and writing.
use polyleverage.Accounts.{
  margin, market_nonce, pmlc, program_config, instrument, multisig, timelock, session, fee_schedule,
  fee_treasury, user_volume, book, token_data, other, margin_layout, market_nonce_layout,
  program_config_layout, pmlc_layout, timelock_layout, fee_treasury_layout, user_volume_layout,
  book_layout, session_layout,
}
use polyleverage.Accounts.Views.{IsFaithful}

pub margin_layout-IsFaithful : IsFaithful margin_layout
margin_layout-IsFaithful (margin n) m e = cc
margin_layout-IsFaithful (market_nonce n) m e = cc
margin_layout-IsFaithful (pmlc p) m e = cc
margin_layout-IsFaithful (program_config p) m e = cc
margin_layout-IsFaithful (instrument i) m e = cc
margin_layout-IsFaithful (multisig v) m e = cc
margin_layout-IsFaithful (timelock t) m e = cc
margin_layout-IsFaithful (session s) m e = cc
margin_layout-IsFaithful (fee_schedule x) m e = cc
margin_layout-IsFaithful (fee_treasury x) m e = cc
margin_layout-IsFaithful (user_volume x) m e = cc
margin_layout-IsFaithful (book b) m e = cc
margin_layout-IsFaithful (token_data t) m e = cc
margin_layout-IsFaithful (other s b) m e = cc

pub market_nonce_layout-IsFaithful : IsFaithful market_nonce_layout
market_nonce_layout-IsFaithful (margin n) m e = cc
market_nonce_layout-IsFaithful (market_nonce n) m e = cc
market_nonce_layout-IsFaithful (pmlc p) m e = cc
market_nonce_layout-IsFaithful (program_config p) m e = cc
market_nonce_layout-IsFaithful (instrument i) m e = cc
market_nonce_layout-IsFaithful (multisig v) m e = cc
market_nonce_layout-IsFaithful (timelock t) m e = cc
market_nonce_layout-IsFaithful (session s) m e = cc
market_nonce_layout-IsFaithful (fee_schedule x) m e = cc
market_nonce_layout-IsFaithful (fee_treasury x) m e = cc
market_nonce_layout-IsFaithful (user_volume x) m e = cc
market_nonce_layout-IsFaithful (book b) m e = cc
market_nonce_layout-IsFaithful (token_data t) m e = cc
market_nonce_layout-IsFaithful (other s b) m e = cc

pub program_config_layout-IsFaithful : IsFaithful program_config_layout
program_config_layout-IsFaithful (margin n) m e = cc
program_config_layout-IsFaithful (market_nonce n) m e = cc
program_config_layout-IsFaithful (pmlc p) m e = cc
program_config_layout-IsFaithful (program_config p) m e = cc
program_config_layout-IsFaithful (instrument i) m e = cc
program_config_layout-IsFaithful (multisig v) m e = cc
program_config_layout-IsFaithful (timelock t) m e = cc
program_config_layout-IsFaithful (session s) m e = cc
program_config_layout-IsFaithful (fee_schedule x) m e = cc
program_config_layout-IsFaithful (fee_treasury x) m e = cc
program_config_layout-IsFaithful (user_volume x) m e = cc
program_config_layout-IsFaithful (book b) m e = cc
program_config_layout-IsFaithful (token_data t) m e = cc
program_config_layout-IsFaithful (other s b) m e = cc

pub pmlc_layout-IsFaithful : IsFaithful pmlc_layout
pmlc_layout-IsFaithful (margin n) m e = cc
pmlc_layout-IsFaithful (market_nonce n) m e = cc
pmlc_layout-IsFaithful (pmlc p) m e = cc
pmlc_layout-IsFaithful (program_config p) m e = cc
pmlc_layout-IsFaithful (instrument i) m e = cc
pmlc_layout-IsFaithful (multisig v) m e = cc
pmlc_layout-IsFaithful (timelock t) m e = cc
pmlc_layout-IsFaithful (session s) m e = cc
pmlc_layout-IsFaithful (fee_schedule x) m e = cc
pmlc_layout-IsFaithful (fee_treasury x) m e = cc
pmlc_layout-IsFaithful (user_volume x) m e = cc
pmlc_layout-IsFaithful (book b) m e = cc
pmlc_layout-IsFaithful (token_data t) m e = cc
pmlc_layout-IsFaithful (other s b) m e = cc

pub timelock_layout-IsFaithful : IsFaithful timelock_layout
timelock_layout-IsFaithful (margin n) m e = cc
timelock_layout-IsFaithful (market_nonce n) m e = cc
timelock_layout-IsFaithful (pmlc p) m e = cc
timelock_layout-IsFaithful (program_config p) m e = cc
timelock_layout-IsFaithful (instrument i) m e = cc
timelock_layout-IsFaithful (multisig v) m e = cc
timelock_layout-IsFaithful (timelock t) m e = cc
timelock_layout-IsFaithful (session s) m e = cc
timelock_layout-IsFaithful (fee_schedule x) m e = cc
timelock_layout-IsFaithful (fee_treasury x) m e = cc
timelock_layout-IsFaithful (user_volume x) m e = cc
timelock_layout-IsFaithful (book b) m e = cc
timelock_layout-IsFaithful (token_data t) m e = cc
timelock_layout-IsFaithful (other s b) m e = cc

pub fee_treasury_layout-IsFaithful : IsFaithful fee_treasury_layout
fee_treasury_layout-IsFaithful (margin n) m e = cc
fee_treasury_layout-IsFaithful (market_nonce n) m e = cc
fee_treasury_layout-IsFaithful (pmlc p) m e = cc
fee_treasury_layout-IsFaithful (program_config p) m e = cc
fee_treasury_layout-IsFaithful (instrument i) m e = cc
fee_treasury_layout-IsFaithful (multisig v) m e = cc
fee_treasury_layout-IsFaithful (timelock t) m e = cc
fee_treasury_layout-IsFaithful (session s) m e = cc
fee_treasury_layout-IsFaithful (fee_schedule x) m e = cc
fee_treasury_layout-IsFaithful (fee_treasury x) m e = cc
fee_treasury_layout-IsFaithful (user_volume x) m e = cc
fee_treasury_layout-IsFaithful (book b) m e = cc
fee_treasury_layout-IsFaithful (token_data t) m e = cc
fee_treasury_layout-IsFaithful (other s b) m e = cc

pub user_volume_layout-IsFaithful : IsFaithful user_volume_layout
user_volume_layout-IsFaithful (margin n) m e = cc
user_volume_layout-IsFaithful (market_nonce n) m e = cc
user_volume_layout-IsFaithful (pmlc p) m e = cc
user_volume_layout-IsFaithful (program_config p) m e = cc
user_volume_layout-IsFaithful (instrument i) m e = cc
user_volume_layout-IsFaithful (multisig v) m e = cc
user_volume_layout-IsFaithful (timelock t) m e = cc
user_volume_layout-IsFaithful (session s) m e = cc
user_volume_layout-IsFaithful (fee_schedule x) m e = cc
user_volume_layout-IsFaithful (fee_treasury x) m e = cc
user_volume_layout-IsFaithful (user_volume x) m e = cc
user_volume_layout-IsFaithful (book b) m e = cc
user_volume_layout-IsFaithful (token_data t) m e = cc
user_volume_layout-IsFaithful (other s b) m e = cc

pub book_layout-IsFaithful : IsFaithful book_layout
book_layout-IsFaithful (margin n) m e = cc
book_layout-IsFaithful (market_nonce n) m e = cc
book_layout-IsFaithful (pmlc p) m e = cc
book_layout-IsFaithful (program_config p) m e = cc
book_layout-IsFaithful (instrument i) m e = cc
book_layout-IsFaithful (multisig v) m e = cc
book_layout-IsFaithful (timelock t) m e = cc
book_layout-IsFaithful (session s) m e = cc
book_layout-IsFaithful (fee_schedule x) m e = cc
book_layout-IsFaithful (fee_treasury x) m e = cc
book_layout-IsFaithful (user_volume x) m e = cc
book_layout-IsFaithful (book b) m e = cc
book_layout-IsFaithful (token_data t) m e = cc
book_layout-IsFaithful (other s b) m e = cc

pub session_layout-IsFaithful : IsFaithful session_layout
session_layout-IsFaithful (margin n) m e = cc
session_layout-IsFaithful (market_nonce n) m e = cc
session_layout-IsFaithful (pmlc p) m e = cc
session_layout-IsFaithful (program_config p) m e = cc
session_layout-IsFaithful (instrument i) m e = cc
session_layout-IsFaithful (multisig v) m e = cc
session_layout-IsFaithful (timelock t) m e = cc
session_layout-IsFaithful (session s) m e = cc
session_layout-IsFaithful (fee_schedule x) m e = cc
session_layout-IsFaithful (fee_treasury x) m e = cc
session_layout-IsFaithful (user_volume x) m e = cc
session_layout-IsFaithful (book b) m e = cc
session_layout-IsFaithful (token_data t) m e = cc
session_layout-IsFaithful (other s b) m e = cc
