-- ===== src/Permit/Laws.antt =====
-- A permit is accepted for the call that it was issued for, and for no other (permit.py).
use clayseal_receipts.Prelude.{
  ℕ, ◌+◌, ◌<◌, ◌≤◌, String, ◌≡◌, none, some, true, string_eq, option_eq, nat_eq, text_eq, int_eq,
  eqℤ_iff, arith, eq_iff, text_beq_iff, option_beq_iff, beq_self, Option-cases, inl, inr,
}
use clayseal_receipts.Signing.{Crypto, SignsCorrectly, sign, verify, signature_key_id_matches}
use clayseal_receipts.Signing.Laws.{verify-sign}
use clayseal_receipts.Permit.{
  ToolPermit, SignedToolPermit, ExecutionContext, Clock, called_tool, permit_for, binding_refusal,
  issue_tool_permit, verify_tool_permit,
}

-- what a permit says of the call that it is for
pub record IsBoundTo (permit : ToolPermit) (ctx : ExecutionContext) : Type 0 where
  pub tool : permit.tool_name ≡ called_tool ctx
  pub resource : permit.resource_ref ≡ ctx.action.resource_ref
  pub arguments : permit.arguments_hash ≡ ctx.input_hash
  pub authority : permit.authority_id ≡ ctx.authority_id
  pub version : permit.authority_version ≡ ctx.authority_version
  pub epoch : permit.permit_epoch ≡ ctx.permit_epoch
  pub query : permit.query_id ≡ ctx.query_id

binding_refusal-IsBoundTo :
    (permit : ToolPermit) (ctx : ExecutionContext)
    → binding_refusal permit ctx ≡ none
    → IsBoundTo permit ctx
unfolding binding_refusal
binding_refusal-IsBoundTo permit ctx h = record {
  tool = ground (arith, text_beq_iff permit.tool_name (called_tool ctx));
  resource = ground (arith, option_beq_iff permit.resource_ref ctx.action.resource_ref);
  arguments = ground (arith, eq_iff permit.arguments_hash ctx.input_hash);
  authority = ground (arith, eq_iff permit.authority_id ctx.authority_id);
  version = ground (arith, eqℤ_iff permit.authority_version ctx.authority_version);
  epoch = ground (arith, eqℤ_iff permit.permit_epoch ctx.permit_epoch);
  query = ground (arith, option_beq_iff permit.query_id ctx.query_id);
}

module _ (c : Crypto) (hash : ToolPermit → String) (clock : Clock) where
  -- An accepted permit is signed, expires after the time of the call, and names the call's tool,
  -- resource, arguments, authority with its version and epoch, and query.
  pub verify_tool_permit-IsBoundTo :
      (signed : SignedToolPermit) (ctx : ExecutionContext) (at : ℕ)
      → verify_tool_permit c hash clock signed ctx at ≡ none
      → (expires_at : ℕ) × (verify c hash signed.permit signed.signature ≡ true)
        × (clock.parse signed.permit.expires_at ≡ some expires_at)
        × (at < expires_at)
        × IsBoundTo signed.permit ctx
  unfolding verify_tool_permit
  verify_tool_permit-IsBoundTo signed ctx at h =
      elim (Option-cases (clock.parse signed.permit.expires_at)) [
        | inl e ↦ absurd (ground arith)
        | inr (expires_at, e) ↦ (
          expires_at,
          ground arith,
          e,
          ground arith,
          binding_refusal-IsBoundTo signed.permit ctx (ground arith),
        )
      ]

  bound_call_lem :
      (ctx : ExecutionContext) (ttl_seconds : ℕ) (permit_id : String) (now : ℕ)
      → binding_refusal (permit_for clock ctx ttl_seconds permit_id now) ctx ≡ none
  unfolding binding_refusal
  bound_call_lem ctx ttl_seconds permit_id now = ground (
    arith,
    beq_self ctx.query_id,
    beq_self ctx.authority_id,
    beq_self ctx.authority_version,
    beq_self ctx.permit_epoch,
    beq_self (called_tool ctx),
    beq_self ctx.action.resource_ref,
    beq_self ctx.input_hash,
  )

  key_id_lem :
      (key : c.SigningKey) (permit : ToolPermit)
      → signature_key_id_matches c (sign c hash key permit) ≡ true
  unfolding signature_key_id_matches sign
  key_id_lem key permit = beq_self (c.key_hash (c.public_key_hex key))

  -- A permit that is issued for a positive time is accepted for its call until then, if ISO texts
  -- can be read back and the Ed25519 library accepts its own signatures.
  pub verify_tool_permit-issue_tool_permit :
      SignsCorrectly c
      → ((t : ℕ) → clock.parse (clock.isoformat t) ≡ some t)
      → (ctx : ExecutionContext) (key : c.SigningKey) (ttl_seconds : ℕ) (permit_id : String)
        (now at : ℕ)
      → at < now + ttl_seconds
      → now ≤ at
      → (signed : SignedToolPermit) × (issue_tool_permit c hash clock ctx key ttl_seconds permit_id
            now
          ≡ some signed)
        × (verify_tool_permit c hash clock signed ctx at ≡ none)
  unfolding issue_tool_permit verify_tool_permit
  verify_tool_permit-issue_tool_permit correct readable ctx key ttl_seconds permit_id now at soon
        later =
      let permit = permit_for clock ctx ttl_seconds permit_id now in
      (
        record { permit = permit; signature = sign c hash key permit },
        ground arith,
        ground (
          arith,
          readable (now + ttl_seconds),
          verify-sign c hash correct key permit,
          key_id_lem key permit,
          bound_call_lem ctx ttl_seconds permit_id now,
        ),
      )
