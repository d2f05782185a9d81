-- ===== src/Errors.antt =====
-- The exceptions that the services raise, one constructor for each message.
pub data Error : Type 0 where
  -- balances.service.ts
  amount_not_positive insufficient_balance insufficient_available insufficient_locked : Error
  balance_not_found write_conflict : Error
  -- an update of a row that is not there
  record_not_found database_failed queue_failed : Error
  -- a foreign key to a user that is not there
  unknown_performer chain_failed : Error
  -- orders.service.ts
  reference_price_missing outside_price_band asset_not_found asset_not_tradable : Error
  max_total_cost_required order_not_found not_order_owner order_not_updatable : Error
  market_order_not_updatable no_mutable_fields price_not_positive order_not_cancellable : Error
  -- payment.service.ts
  transfer_not_positive receiver_required receiver_not_found transfer_to_self : Error
  transaction_not_found withdrawal_failed : Error
  -- gas-spike.service.ts
  not_a_withdrawal not_on_chain max_speed_ups_reached gas_price_not_higher : Error
  speed_up_failed already_refunded not_stuck not_stuck_long refund_failed : Error
  -- dividends.service.ts
  invalid_total_supply claim_not_found already_claimed claims_not_generated : Error
  -- dao.service.ts
  invalid_snapshot_date invalid_end_date end_date_not_after_snapshot : Error
  proposal_not_found proposal_not_active voting_not_open voting_ended no_voting_power : Error
  already_voted proposal_not_passed : Error
  -- kyc.service.ts and multisig.service.ts
  user_not_found wallet_missing id_number_taken reject_reason_required : Error
  kyc_record_not_found whitelist_failed : Error
  multi_sig_not_found already_executed already_approved : Error
  -- redeem.service.ts and asset-blockchain.processor.ts
  kyc_not_approved asset_not_eligible not_sole_holder redemption_not_found : Error
  already_redeemed redemption_not_processing contract_missing burn_failed mint_failed : Error
  -- onboarding.service.ts
  onboarding_not_found already_tokenized onboarding_not_approved pin_failed symbol_taken : Error
  -- otp.service.ts, mfa.service.ts and web3-auth.service.ts
  wait_before_otp smtp_missing mail_failed invalid_otp otp_expired : Error
  challenge_not_found challenge_not_owned challenge_used mfa_not_enabled invalid_totp : Error
  invalid_signature wallet_mismatch invalid_nonce : Error
  -- token.service.ts and auth.service.ts
  token_invalid wrong_token_type token_not_found account_locked token_expired : Error
  token_mismatch session_not_found session_mismatch session_expired : Error
  email_registered email_not_found wrong_password username_taken : Error
