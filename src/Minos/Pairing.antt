-- ===== src/Minos/Pairing.antt =====
-- Pairing and the commands of admins (minos/core/pairing.go).
pub mod Rights
use zakros.Base.{
  ◌+◌, ◌*◌, nat_equality, string_equality, String, List, [], ◌∷◌, Option, none, some, Bool, not,
  ◌&&◌, ◌||◌, ◌==◌, if◌then◌else◌, Result, ok, err,
}
use zakros.Base.Clock.{Time, hour}
use zakros.Base.Text.{strip_prefix, trim_space, fields}
use zakros.Storage.{Uuid}
use zakros.Hermes.{InboundMessage}
use zakros.Identity.{
  Capability, Role, commissioner, system, same_role, is_valid, role_of, Status, active, same_status,
  Identity, PairingRequest, Error, not_found, already_exists, last_admin, pending_expired,
  invalid_role, system_identity_rule, identity_approve_pairing, identity_manage, has_capability,
}
use zakros.Registry.{
  Registry, lookup_by_surface, insert_identity, set_role, revoke, add_capability, pairing_create,
  pairing_by_token, pairing_delete,
}
use zakros.Minos.{
  Server, Notice, emit, reply, posted, already_paired, token_error, already_pending, pair_failed,
  pair_requested, pair_notice, usage, unknown_subcommand, unknown_role, system_role_refused,
  last_admin_refused, approve_failed, approved_as, revoke_failed, revoked_from, grant_failed,
  granted_to, role_failed, role_set, capability_missing, pairing_requested, pairing_approved,
  identity_revoked, capability_granted, role_changed, capability_refused,
}

-- What a command draws: the token of a pairing (`none` if the random source fails), a fresh identifier,
-- the server's clock and the registry's.
pub record Chance : Type 0 where
  pub token : Option String
  pub fresh : Uuid
  pub now : Time
  pub registry_now : Time

-- strings.TrimPrefix
abbrev pub trim_prefix : String → String → String
trim_prefix p s = elim (strip_prefix p s) [ none ↦ s | some rest ↦ rest ]

abbrev pairing_ttl : Time
pairing_ttl = 24 * hour

abbrev pairing_of : Chance → InboundMessage → String → PairingRequest
pairing_of ch msg token = record {
  token = token;
  surface = msg.surface;
  surface_id = msg.surface_user_id;
  note = trim_space (trim_prefix "/pair" (trim_space msg.content));
  created_at = 0;
  expires_at = ch.now + pairing_ttl;
}

abbrev pub identity_of : Chance → PairingRequest → Role → Identity
identity_of ch p role = record {
  id = ch.fresh;
  surface = p.surface;
  surface_id = p.surface_id;
  role = role;
  status = active;
  capabilities_added = [];
  capabilities_removed = [];
  created_at = 0;
  updated_at = 0;
}

-- The role that `approve` gives, or why it gives none.
unfoldable pub approved_role : List String → Result Notice Role
unfolding role_of is_valid
approved_role [] = ok commissioner
approved_role (text ∷ rest) =
    if same_role (role_of text) system
    then err system_role_refused
    else if not (is_valid (role_of text))
    then err (unknown_role text)
    else ok (role_of text)

module _ {Cluster : Type 0} where
  -- replyCapabilityRefused
  unfoldable pub reply_capability_refused :
      InboundMessage → Capability → Server Cluster → Server Cluster
  unfolding reply
  reply_capability_refused msg c s =
      reply msg (capability_missing c)
        (emit (capability_refused msg.surface msg.surface_user_id c) s)

  -- The announcement to the admins; its error is dropped.
  unfoldable pub notify_admins : InboundMessage → PairingRequest → Server Cluster → Server Cluster
  notify_admins msg p s =
      if s.hermes && not (s.cfg.project.thread_parent == "")
      then emit
          (posted msg.surface s.cfg.project.thread_parent
            (pair_notice msg.surface msg.surface_user_id p.token p.note))
          s
      else s

  unfoldable pub create_pairing :
      Chance → InboundMessage → PairingRequest → Server Cluster → Server Cluster
  unfolding notify_admins reply
  create_pairing ch msg p s =
      let (m, e) = pairing_create ch.registry_now p s.identities in
      let v = record s { identities = m } in
      elim e [
        | some already_exists ↦ reply msg already_pending v
        | some x ↦ reply msg (pair_failed x) v
        | none ↦ notify_admins msg p (
            reply msg (pair_requested p.token)
              (emit (pairing_requested msg.surface msg.surface_user_id p.token) v))
      ]

  unfoldable pub request_pairing : Chance → InboundMessage → Server Cluster → Server Cluster
  unfolding create_pairing
  request_pairing ch msg s = elim ch.token [
    | none ↦ reply msg token_error s
    | some token ↦ create_pairing ch msg (pairing_of ch msg token) s
  ]

  unfoldable pub handle_pair : Chance → InboundMessage → Server Cluster → Server Cluster
  unfolding request_pairing
  handle_pair ch msg s = elim (lookup_by_surface msg.surface msg.surface_user_id s.identities) [
    | err e ↦ request_pairing ch msg s
    | ok i ↦
        if same_status i.status active
        then reply msg (already_paired i.role) s
        else request_pairing ch msg s
  ]

  -- From the request that the token names to the identity.
  unfoldable pub approve_pairing :
      Chance → InboundMessage → String → Role → PairingRequest → Server Cluster → Server Cluster
  unfolding reply
  approve_pairing ch msg token role p s =
      let (m, e) = insert_identity ch.registry_now ch.fresh (identity_of ch p role) s.identities in
      elim e [
        | some x ↦ reply msg (approve_failed x) (record s { identities = m })
        | none ↦ reply msg (approved_as p.surface p.surface_id role) (
            emit (pairing_approved p.surface p.surface_id role msg.surface_user_id)
              (record s { identities = pairing_delete token m }))
      ]

  unfoldable pub handle_approve :
      Chance → InboundMessage → List String → Server Cluster → Server Cluster
  unfolding approved_role approve_pairing
  handle_approve ch msg [] s = reply msg (usage "approve") s
  handle_approve ch msg (token ∷ rest) s = elim (approved_role rest) [
    | err notice ↦ reply msg notice s
    | ok role ↦ elim (pairing_by_token token ch.registry_now s.identities) [
      | err e ↦ reply msg (approve_failed e) s
      | ok p ↦ approve_pairing ch msg token role p s
    ]
  ]

  unfoldable pub handle_revoke :
      Chance → InboundMessage → List String → Server Cluster → Server Cluster
  unfolding reply
  handle_revoke ch msg [] s = reply msg (usage "revoke") s
  handle_revoke ch msg (surface_id ∷ rest) s =
      elim (lookup_by_surface msg.surface surface_id s.identities) [
        | err e ↦ reply msg (revoke_failed e) s
        | ok i ↦
            let (m, e) = revoke i.id ch.registry_now s.identities in
            let v = record s { identities = m } in
            elim e [
              | some last_admin ↦ reply msg last_admin_refused v
              | some x ↦ reply msg (revoke_failed x) v
              | none ↦
                  reply msg (revoked_from i.surface i.surface_id)
                    (emit (identity_revoked i.surface i.surface_id msg.surface_user_id) v)
            ]
      ]

  unfoldable pub handle_grant :
      Chance → InboundMessage → List String → Server Cluster → Server Cluster
  unfolding reply
  handle_grant ch msg [] s = reply msg (usage "grant") s
  handle_grant ch msg (surface_id ∷ []) s = reply msg (usage "grant") s
  handle_grant ch msg (surface_id ∷ (c ∷ rest)) s =
      elim (lookup_by_surface msg.surface surface_id s.identities) [
        | err e ↦ reply msg (grant_failed e) s
        | ok i ↦
            let (m, e) = add_capability i.id c ch.registry_now s.identities in
            let v = record s { identities = m } in
            elim e [
              | some x ↦ reply msg (grant_failed x) v
              | none ↦
                  reply msg (granted_to c i.surface i.surface_id)
                    (emit (capability_granted i.surface i.surface_id c msg.surface_user_id) v)
            ]
      ]

  unfoldable pub change_role :
      Chance → InboundMessage → String → Identity → Server Cluster → Server Cluster
  unfolding reply role_of
  change_role ch msg text i s =
      if same_role (role_of text) system
      then reply msg system_role_refused s
      else (let (m, e) = set_role i.id (role_of text) ch.registry_now s.identities in
          let v = record s { identities = m } in
          elim e [
            | some last_admin ↦ reply msg last_admin_refused v
            | some invalid_role ↦ reply msg (unknown_role text) v
            | some x ↦ reply msg (role_failed x) v
            | none ↦
                reply msg (role_set i.surface i.surface_id (role_of text))
                  (emit (role_changed i.surface i.surface_id (role_of text) msg.surface_user_id) v)
          ])

  unfoldable pub handle_role_change :
      Chance → InboundMessage → List String → Server Cluster → Server Cluster
  unfolding change_role
  handle_role_change ch msg [] s = reply msg (usage "role") s
  handle_role_change ch msg (surface_id ∷ []) s = reply msg (usage "role") s
  handle_role_change ch msg (surface_id ∷ (text ∷ rest)) s =
      elim (lookup_by_surface msg.surface surface_id s.identities) [
        | err e ↦ reply msg (role_failed e) s
        | ok i ↦ change_role ch msg text i s
      ]

  -- A subcommand behind its capability.
  unfoldable pub gated :
      Capability
      → Identity
      → InboundMessage
      → (Server Cluster → Server Cluster)
      → Server Cluster
      → Server Cluster
  unfolding reply_capability_refused
  gated c caller msg run s =
      if has_capability c (some caller) then run s else reply_capability_refused msg c s

  unfoldable pub run_subcommand :
      Chance → InboundMessage → Identity → String → List String → Server Cluster → Server Cluster
  unfolding gated
  run_subcommand ch msg caller name args s =
      if name == "approve"
      then gated identity_approve_pairing caller msg (handle_approve ch msg args) s
      else if name == "revoke"
      then gated identity_manage caller msg (handle_revoke ch msg args) s
      else if name == "grant"
      then gated identity_manage caller msg (handle_grant ch msg args) s
      else if name == "role"
      then gated identity_manage caller msg (handle_role_change ch msg args) s
      else reply msg (unknown_subcommand name) s

  unfoldable pub handle_minos_command :
      Chance → InboundMessage → Identity → Server Cluster → Server Cluster
  unfolding run_subcommand
  handle_minos_command ch msg caller s =
      elim (fields (trim_space (trim_prefix "/minos" (trim_space msg.content)))) [
        | [] ↦ reply msg (usage "") s
        | name ∷ args ↦ run_subcommand ch msg caller name args s
      ]
