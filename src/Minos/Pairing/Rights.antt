-- ===== src/Minos/Pairing/Rights.antt =====
-- What pairing and the commands of admins write (minos/core/pairing.go).
use zakros.Base.{
  ◌==◌, nat_equality, string_equality, String, List, [], ◌∷◌, some, Bool, true, false, ◌≡◌, ◌⊎◌,
  inl, inr, refl, arith, ok, Bool-cases, Result-cases, if◌then◌else◌,
}
use zakros.Base.Text.{fields, trim_space}
use zakros.Hermes.{InboundMessage}
use zakros.Identity.{
  Role, system, same_role, Identity, PairingRequest, has_capability, identity_approve_pairing,
  identity_manage, role_of,
}
use zakros.Registry.{
  Registry, Call, inserts, sets_role, revokes, adds, removes, step, lookup_by_surface,
  insert_identity, pairing_by_token, pairing_create, pairing_delete,
}
use zakros.Minos.{Server, reply, usage}
use zakros.Minos.Pairing.{
  Chance, identity_of, approved_role, notify_admins, create_pairing, request_pairing, handle_pair,
  approve_pairing, handle_approve, handle_revoke, handle_grant, change_role, handle_role_change,
  gated, run_subcommand, handle_minos_command, reply_capability_refused, trim_prefix,
}

-- The write of the registry that a command of `caller` may be: an identity of a pending request, under any
-- role but system and a fresh identifier; or a change of an identity, which gives no system role.
abbrev pub IsAllowed : Chance → Identity → Registry → Call → Type 0
IsAllowed ch caller s (inserts now fresh i) =
    (has_capability identity_approve_pairing (some caller) ≡ true)
    × (token : String) × (p : PairingRequest) × (pairing_by_token token now s ≡ ok p)
    × (i.surface ≡ p.surface)
    × (i.surface_id ≡ p.surface_id)
    × (same_role i.role system ≡ false)
    × (fresh ≡ ch.fresh)
    × (i.id ≡ ch.fresh)
IsAllowed ch caller s (sets_role id role now) =
    (has_capability identity_manage (some caller) ≡ true) × (same_role role system ≡ false)
IsAllowed ch caller s (revokes id now) = has_capability identity_manage (some caller) ≡ true
IsAllowed ch caller s (adds id c now) = has_capability identity_manage (some caller) ≡ true
IsAllowed ch caller s (removes id c now) = ⊥

-- The identities after: those before, or those after one such write.
abbrev pub Writes : Chance → Identity → Registry → Registry → Type 0
Writes ch caller s v =
    (v.identities ≡ s.identities)
    ⊎ ((c : Call) × IsAllowed ch caller s c × (v.identities ≡ (step c s).identities))

approved_role-unsystem :
    (args : List String) (role : Role)
    → approved_role args ≡ ok role
    → same_role role system ≡ false
unfolding approved_role
approved_role-unsystem [] role e = ground arith
approved_role-unsystem (text ∷ rest) role e = ground arith

module _ {Cluster : Type 0} where
  -- The tasks and the pods are as before.
  abbrev pub SameWork : Server Cluster → Server Cluster → Type 0
  SameWork s v = (v.store ≡ s.store) × (v.cluster ≡ s.cluster)

  approve_pairing-identities :
      (ch : Chance) (msg : InboundMessage) (token : String) (role : Role) (p : PairingRequest)
      (s : Server Cluster)
      → (approve_pairing ch msg token role p s).identities.identities
        ≡ (insert_identity ch.registry_now ch.fresh
            (identity_of ch p role)
            s.identities).0.identities
  unfolding approve_pairing reply pairing_delete
  approve_pairing-identities ch msg token role p s = ground arith

  handle_approve-Writes :
      (ch : Chance) (msg : InboundMessage) (caller : Identity) (args : List String)
      (s : Server Cluster)
      → has_capability identity_approve_pairing (some caller) ≡ true
      → Writes ch caller s.identities (handle_approve ch msg args s).identities
  unfolding handle_approve reply step
  handle_approve-Writes ch msg caller [] s h = inl (ground arith)
  handle_approve-Writes ch msg caller (token ∷ rest) s h =
      elim (Result-cases (approved_role rest)) [
        | inr (n, e) ↦ inl (ground arith)
        | inl (role, e) ↦
            elim (Result-cases (pairing_by_token token ch.registry_now s.identities)) [
              | inr (x, e') ↦ inl (ground arith)
              | inl (p, e') ↦ inr (
                inserts ch.registry_now ch.fresh (identity_of ch p role),
                (h, token, p, e', refl, refl, approved_role-unsystem rest role e, refl, refl),
                rw (e, e', handle_approve) (approve_pairing-identities ch msg token role p s),
              )
            ]
      ]

  handle_revoke-Writes :
      (ch : Chance) (msg : InboundMessage) (caller : Identity) (args : List String)
      (s : Server Cluster)
      → has_capability identity_manage (some caller) ≡ true
      → Writes ch caller s.identities (handle_revoke ch msg args s).identities
  unfolding handle_revoke reply step
  handle_revoke-Writes ch msg caller [] s h = inl (ground arith)
  handle_revoke-Writes ch msg caller (a ∷ rest) s h =
      elim (Result-cases (lookup_by_surface msg.surface a s.identities)) [
        | inr (n, e) ↦ inl (ground arith)
        | inl (i, e) ↦ inr (revokes i.id ch.registry_now, h, rw (e, handle_revoke) (ground arith))
      ]

  handle_grant-Writes :
      (ch : Chance) (msg : InboundMessage) (caller : Identity) (args : List String)
      (s : Server Cluster)
      → has_capability identity_manage (some caller) ≡ true
      → Writes ch caller s.identities (handle_grant ch msg args s).identities
  unfolding handle_grant reply step
  handle_grant-Writes ch msg caller [] s h = inl (ground arith)
  handle_grant-Writes ch msg caller (a ∷ []) s h = inl (ground arith)
  handle_grant-Writes ch msg caller (a ∷ (c ∷ rest)) s h =
      elim (Result-cases (lookup_by_surface msg.surface a s.identities)) [
        | inr (n, e) ↦ inl (ground arith)
        | inl (i, e) ↦ inr (adds i.id c ch.registry_now, h, rw (e, handle_grant) (ground arith))
      ]

  handle_role_change-Writes :
      (ch : Chance) (msg : InboundMessage) (caller : Identity) (args : List String)
      (s : Server Cluster)
      → has_capability identity_manage (some caller) ≡ true
      → Writes ch caller s.identities (handle_role_change ch msg args s).identities
  unfolding handle_role_change change_role reply step
  handle_role_change-Writes ch msg caller [] s h = inl (ground arith)
  handle_role_change-Writes ch msg caller (a ∷ []) s h = inl (ground arith)
  handle_role_change-Writes ch msg caller (a ∷ (text ∷ rest)) s h =
      elim (Result-cases (lookup_by_surface msg.surface a s.identities)) [
        | inr (n, e) ↦ inl (ground arith)
        | inl (i, e) ↦ elim (Bool-cases (same_role (role_of text) system)) [
          | inl sys ↦ inl (ground arith)
          | inr other ↦ inr (
            sets_role i.id (role_of text) ch.registry_now,
            (h, other),
            rw (e, handle_role_change) (ground arith),
          )
        ]
      ]

  pub refused-Same :
      (msg : InboundMessage) (c : String) (s : Server Cluster)
      → ((reply_capability_refused msg c s).identities ≡ s.identities)
        × SameWork s (reply_capability_refused msg c s)
  unfolding reply_capability_refused reply
  refused-Same msg c s = ground arith

  gated-Writes :
      (ch : Chance) (c : String) (caller : Identity) (msg : InboundMessage)
      (run : Server Cluster → Server Cluster) (s : Server Cluster)
      → (has_capability c (some caller) ≡ true → Writes ch caller s.identities (run s).identities)
      → Writes ch caller s.identities (gated c caller msg run s).identities
  unfolding gated reply_capability_refused reply
  gated-Writes ch c caller msg run s h = elim (Bool-cases (has_capability c (some caller))) [
    | inl may ↦ rw may (h may)
    | inr not_may ↦ inl (ground arith)
  ]

  -- One of two servers.
  if-Writes :
      (ch : Chance) (caller : Identity) (s : Registry) (b : Bool) (v w : Server Cluster)
      → Writes ch caller s v.identities
      → Writes ch caller s w.identities
      → Writes ch caller s (if b then v else w).identities
  if-Writes ch caller s true v w h k = h
  if-Writes ch caller s false v w h k = k

  run_subcommand-Writes :
      (ch : Chance) (msg : InboundMessage) (caller : Identity) (name : String) (args : List String)
      (s : Server Cluster)
      → Writes ch caller s.identities (run_subcommand ch msg caller name args s).identities
  unfolding run_subcommand reply
  run_subcommand-Writes ch msg caller name args s =
      if-Writes ch caller s.identities (name == "approve") _ _
        (gated-Writes ch identity_approve_pairing caller msg (handle_approve ch msg args) s
          (handle_approve-Writes ch msg caller args s))
        (if-Writes ch caller s.identities (name == "revoke") _ _
          (gated-Writes ch identity_manage caller msg (handle_revoke ch msg args) s
            (handle_revoke-Writes ch msg caller args s))
          (if-Writes ch caller s.identities (name == "grant") _ _
            (gated-Writes ch identity_manage caller msg (handle_grant ch msg args) s
              (handle_grant-Writes ch msg caller args s))
            (if-Writes ch caller s.identities (name == "role") _ _
              (gated-Writes ch identity_manage caller msg (handle_role_change ch msg args) s
                (handle_role_change-Writes ch msg caller args s))
              (inl (ground arith)))))

  pub handle_pair-Same :
      (ch : Chance) (msg : InboundMessage) (s : Server Cluster)
      → ((handle_pair ch msg s).identities.identities ≡ s.identities.identities)
        × SameWork s (handle_pair ch msg s)
  unfolding handle_pair request_pairing create_pairing notify_admins reply pairing_create
  handle_pair-Same ch msg s = ground arith

  handle_approve-Same :
      (ch : Chance) (msg : InboundMessage) (args : List String) (s : Server Cluster)
      → SameWork s (handle_approve ch msg args s)
  unfolding handle_approve approve_pairing reply
  handle_approve-Same ch msg [] s = ground arith
  handle_approve-Same ch msg (a ∷ rest) s = ground arith

  handle_revoke-Same :
      (ch : Chance) (msg : InboundMessage) (args : List String) (s : Server Cluster)
      → SameWork s (handle_revoke ch msg args s)
  unfolding handle_revoke reply
  handle_revoke-Same ch msg [] s = ground arith
  handle_revoke-Same ch msg (a ∷ rest) s = ground arith

  handle_grant-Same :
      (ch : Chance) (msg : InboundMessage) (args : List String) (s : Server Cluster)
      → SameWork s (handle_grant ch msg args s)
  unfolding handle_grant reply
  handle_grant-Same ch msg [] s = ground arith
  handle_grant-Same ch msg (a ∷ []) s = ground arith
  handle_grant-Same ch msg (a ∷ (c ∷ rest)) s = ground arith

  change_role-Same :
      (ch : Chance) (msg : InboundMessage) (text : String) (i : Identity) (s : Server Cluster)
      → SameWork s (change_role ch msg text i s)
  unfolding change_role reply
  change_role-Same ch msg text i s = ground arith

  handle_role_change-Same :
      (ch : Chance) (msg : InboundMessage) (args : List String) (s : Server Cluster)
      → SameWork s (handle_role_change ch msg args s)
  unfolding handle_role_change reply
  handle_role_change-Same ch msg [] s = ground arith
  handle_role_change-Same ch msg (a ∷ []) s = ground arith
  handle_role_change-Same ch msg (a ∷ (c ∷ rest)) s =
      elim (Result-cases (lookup_by_surface msg.surface a s.identities)) [
        | inr (n, e) ↦ rw (e, handle_role_change) (ground arith)
        | inl (i, e) ↦ rw (e, handle_role_change) (change_role-Same ch msg c i s)
      ]

  run_subcommand-Same :
      (ch : Chance) (msg : InboundMessage) (caller : Identity) (name : String) (args : List String)
      (s : Server Cluster)
      → SameWork s (run_subcommand ch msg caller name args s)
  unfolding run_subcommand gated reply_capability_refused reply
  run_subcommand-Same ch msg caller name args s = ground (
    arith,
    handle_approve-Same ch msg args s,
    handle_revoke-Same ch msg args s,
    handle_grant-Same ch msg args s,
    handle_role_change-Same ch msg args s,
  )

  pub handle_minos_command-Writes :
      (ch : Chance) (msg : InboundMessage) (caller : Identity) (s : Server Cluster)
      → SameWork s (handle_minos_command ch msg caller s)
        × Writes ch caller s.identities (handle_minos_command ch msg caller s).identities
  unfolding handle_minos_command reply
  handle_minos_command-Writes ch msg caller s =
      parts (fields (trim_space (trim_prefix "/minos" (trim_space msg.content))))
    where
      next : List String → Server Cluster
      next ws = elim ws [
        | [] ↦ reply msg (usage "") s
        | name ∷ args ↦ run_subcommand ch msg caller name args s
      ]

      parts :
          (ws : List String)
          → SameWork s (next ws) × Writes ch caller s.identities (next ws).identities
      parts [] = (ground arith, inl (ground arith))
      parts (name ∷ args) = (
        run_subcommand-Same ch msg caller name args s,
        run_subcommand-Writes ch msg caller name args s,
      )
