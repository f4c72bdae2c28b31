-- ===== src/Permit.antt =====
-- agentauth/receipts/permit.py: a signed permit for one call of a tool. Instants are numbers; their
-- ISO texts and the canonical JSON hashes are parameters.
pub mod Laws
use clayseal_receipts.Prelude.{
  ℕ, ◌+◌, String, Option, none, some, Bool, true, false, not, ◌==◌, ◌!=◌, string_eq, option_eq,
  nat_eq, text_eq, int_eq, ℤ, Text, leb, eqb, if◌then◌else◌,
}
use clayseal_receipts.Signing.{Signature, Crypto, sign, verify, signature_key_id_matches}
use clayseal_receipts.Operations.{ActionDescriptor, after_last}

pub record ToolPermit : Type 0 where
  pub permit_id : String
  pub issued_at : String
  pub expires_at : String
  pub query_id : Option String
  pub authority_id : String
  pub authority_version : ℤ
  pub permit_epoch : ℤ
  pub tool_name : Text
  pub resource_ref : Option Text
  pub arguments_hash : String

pub record SignedToolPermit : Type 0 where
  pub permit : ToolPermit
  pub signature : Signature

-- what a permit is bound to, with `hash_canonical_json(ctx.input)`
pub record ExecutionContext : Type 0 where
  pub query_id : Option String
  pub authority_id : String
  pub authority_version : ℤ
  pub permit_epoch : ℤ
  pub action : ActionDescriptor
  pub input_hash : String

pub data PermitRefusal : Type 0 where
  key_id_mismatch signature_invalid expires_at_invalid expired : PermitRefusal
  tool_name_mismatch resource_ref_mismatch arguments_hash_mismatch : PermitRefusal
  authority_id_mismatch authority_version_mismatch epoch_mismatch query_id_mismatch : PermitRefusal

-- datetime.isoformat, and `_parse_dt`
pub record Clock : Type 0 where
  pub isoformat : ℕ → String
  pub parse : String → Option ℕ

-- `ctx.action.action_name.rsplit("/", 1)[-1]`
abbrev pub called_tool : ExecutionContext → Text
called_tool ctx = after_last b'/' ctx.action.action_name

-- the comparisons of a permit with its context; `none` is no refusal
unfoldable pub binding_refusal : ToolPermit → ExecutionContext → Option PermitRefusal
binding_refusal permit ctx =
    if permit.tool_name != called_tool ctx
    then some tool_name_mismatch
    else if permit.resource_ref != ctx.action.resource_ref
    then some resource_ref_mismatch
    else if permit.arguments_hash != ctx.input_hash
    then some arguments_hash_mismatch
    else if permit.authority_id != ctx.authority_id
    then some authority_id_mismatch
    else if permit.authority_version != ctx.authority_version
    then some authority_version_mismatch
    else if permit.permit_epoch != ctx.permit_epoch
    then some epoch_mismatch
    else if permit.query_id != ctx.query_id
    then some query_id_mismatch
    else none

-- `uuid4()` and the clock are arguments; the time to live is in the unit of the instants
abbrev pub permit_for : Clock → ExecutionContext → ℕ → String → ℕ → ToolPermit
permit_for clock ctx ttl_seconds permit_id now = record {
  permit_id = permit_id;
  issued_at = clock.isoformat now;
  expires_at = clock.isoformat (now + ttl_seconds);
  query_id = ctx.query_id;
  authority_id = ctx.authority_id;
  authority_version = ctx.authority_version;
  permit_epoch = ctx.permit_epoch;
  tool_name = called_tool ctx;
  resource_ref = ctx.action.resource_ref;
  arguments_hash = ctx.input_hash;
}

module _ (c : Crypto) (hash : ToolPermit → String) (clock : Clock) where
  -- `none` is the `ValueError`
  unfoldable pub issue_tool_permit :
      ExecutionContext → c.SigningKey → ℕ → String → ℕ → Option SignedToolPermit
  issue_tool_permit ctx key ttl_seconds permit_id now =
      let permit = permit_for clock ctx ttl_seconds permit_id now in
      if eqb ttl_seconds 0
      then none
      else some (record { permit = permit; signature = sign c hash key permit })

  -- the refusal, or none for `(True, None)`
  unfoldable pub verify_tool_permit : SignedToolPermit → ExecutionContext → ℕ → Option PermitRefusal
  unfolding binding_refusal
  verify_tool_permit signed ctx at =
      if not (signature_key_id_matches c signed.signature)
      then some key_id_mismatch
      else if not (verify c hash signed.permit signed.signature)
      then some signature_invalid
      else elim (clock.parse signed.permit.expires_at) [
        | none ↦ some expires_at_invalid
        | some expires_at ↦
            if leb expires_at at then some expired else binding_refusal signed.permit ctx
      ]
