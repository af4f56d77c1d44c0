-- ===== src/Session/Submit/Replace.antt =====
-- replace_if_present: which earlier submit_sm a new one replaces, and what is dropped with it.
use smpp_smsc.Base.{◌≡◌, ◌≢◌, Bytes, All, nat_eq, bytes_eq}
use smpp_smsc.Base.Decimal.{decimal-injective, split_at_separator}
use smpp_smsc.Types.{SubmitSmParams}
use smpp_smsc.Session.{Session, pending_key_eq}
use smpp_smsc.Session.Submit.{make_replace_submit_key}

-- No zero byte, as in a C string.
abbrev pub IsCString : Bytes → Type 0
IsCString = All (λ b. b ≢ 0)

-- Two submit_sm with C-string fields have one replace key only if service_type, source, destination
-- and sm_default_msg_id all agree.
pub make_replace_submit_key-injective :
    (p q : SubmitSmParams)
    → IsCString p.service_type
    → IsCString q.service_type
    → IsCString p.source_addr
    → IsCString q.source_addr
    → IsCString p.dest_addr
    → IsCString q.dest_addr
    → make_replace_submit_key p ≡ make_replace_submit_key q
    → (p.service_type ≡ q.service_type)
      × (p.source_addr ≡ q.source_addr)
      × (p.dest_addr ≡ q.dest_addr)
      × (p.sm_default_msg_id ≡ q.sm_default_msg_id)
unfolding make_replace_submit_key
make_replace_submit_key-injective p q a b c d f g e =
    let (same_type, e1) = split_at_separator 0 p.service_type q.service_type _ _ a b e in
    let (same_source, e2) = split_at_separator 0 p.source_addr q.source_addr _ _ c d e1 in
    let (same_dest, e3) = split_at_separator 0 p.dest_addr q.dest_addr _ _ f g e2 in
    (same_type, same_source, same_dest, decimal-injective _ _ e3)
