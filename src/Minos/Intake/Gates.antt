-- ===== src/Minos/Intake/Gates.antt =====
-- Who may have Minos do what by a chat message (minos/core/intake.go and minos/core/pairing.go).
use zakros.Base.{
  ◌==◌, ◌≤◌, ◌||◌, nat_equality, string_equality, Bool, true, false, ◌≡◌, ◌⊎◌, inl, inr, refl, sym,
  subst, ap, arith, none, some, Result, ok, err, Bool-cases, Result-cases, if◌then◌else◌,
}
use zakros.Base.Text.{Casing, trim_space}
use zakros.Base.Maps.{lookup}
use zakros.Hermes.{InboundMessage}
use zakros.Identity.{Identity, has_capability, task_commission_code, task_query_state}
use zakros.Registry.{
  Registry, step, lookup_by_surface, count_active_admins, Call, inserts, sets_role, revokes, adds,
  removes,
}
use zakros.Registry.Admins.{step-keeps_admin}
use zakros.Minos.{
  Server, Environment, CommandError, not_a_command, repo_required, branch_missing, summary_missing,
  reply, emit, commission_rejected, command_failed,
}
use zakros.Minos.Dispatching.{Draws}
use zakros.Minos.Commissioning.{CommissionRequest, commission}
use zakros.Minos.Commissioning.Identities.{commission-KeepsIdentities}
use zakros.Minos.Pairing.{Chance, handle_minos_command, reply_capability_refused}
use zakros.Minos.Pairing.Rights.{
  IsAllowed, Writes, SameWork, refused-Same, handle_pair-Same, handle_minos_command-Writes,
}
use zakros.Minos.Intake.{
  is_command, handle_status_query, origin_of, run_commission, handle_commission, handle_known,
  handle_inbound,
}
use zakros.Minos.Intake.Commands.{parse_commission_command}

-- A write that is allowed leaves an active admin where there is one.
allowed-keeps_admin :
    (ch : Chance) (caller : Identity) (c : Call) (s : Registry)
    → lookup ch.fresh s.identities ≡ none
    → IsAllowed ch caller s c
    → 1 ≤ count_active_admins s.identities
    → 1 ≤ count_active_admins (step c s).identities
allowed-keeps_admin ch caller (inserts now fresh i) s free (may, token, p, e, sf, si, role, f, k)
      h =
    let same : (if i.id == 0 then fresh else i.id) ≡ ch.fresh = ground arith in
    step-keeps_admin (inserts now fresh i) s
      (subst (λ j. lookup j s.identities ≡ none) (sym same) free) h
allowed-keeps_admin ch caller (sets_role id role now) s free a h =
    step-keeps_admin (sets_role id role now) s tt h
allowed-keeps_admin ch caller (revokes id now) s free a h = step-keeps_admin (revokes id now) s tt h
allowed-keeps_admin ch caller (adds id c now) s free a h = step-keeps_admin (adds id c now) s tt h
allowed-keeps_admin ch caller (removes id c now) s free a h = absurd a

module _ {Cluster : Type 0} where
  -- The tasks and pods of a commission of the message, by a caller that has the capability.
  abbrev pub Commissions :
      Environment Cluster
      → Draws
      → InboundMessage
      → Identity
      → Server Cluster
      → Server Cluster
      → Type 0
  Commissions env d msg caller s v =
      (has_capability task_commission_code (some caller) ≡ true)
      × (v.identities ≡ s.identities)
      × (req : CommissionRequest) × (parse_commission_command msg.content ≡ ok req)
      × (v.store ≡ (commission env d (record req { origin = origin_of env msg caller }) s).0.store)
      × (v.cluster
          ≡ (commission env d (record req { origin = origin_of env msg caller }) s).0.cluster)

  abbrev MayDo :
      Environment Cluster
      → Draws
      → Chance
      → InboundMessage
      → Identity
      → Server Cluster
      → Server Cluster
      → Type 0
  MayDo env d ch msg caller s v =
      (SameWork s v × Writes ch caller s.identities v.identities) ⊎ Commissions env d msg caller s v

  -- What a message leaves: the tasks, the pods and the identities as before, or what its registered sender
  -- may do.
  abbrev pub Permitted :
      Environment Cluster
      → Draws
      → Chance
      → InboundMessage
      → Server Cluster
      → Server Cluster
      → Type 0
  Permitted env d ch msg s v =
      (SameWork s v × (v.identities.identities ≡ s.identities.identities))
      ⊎ ((caller : Identity) × (lookup_by_surface msg.surface msg.surface_user_id s.identities
            ≡ ok caller)
          × MayDo env d ch msg caller s v)

  run_commission-Commissions :
      (env : Environment Cluster) (d : Draws) (msg : InboundMessage) (caller : Identity)
      (req : CommissionRequest) (s : Server Cluster)
      → has_capability task_commission_code (some caller) ≡ true
      → parse_commission_command msg.content ≡ ok req
      → Commissions env d msg caller s (run_commission env d msg caller req s)
  unfolding run_commission reply
  run_commission-Commissions env d msg caller req s may parsed =
      let asked = record req { origin = origin_of env msg caller } in
      let same = commission-KeepsIdentities env d asked s in
      (may, ground arith, req, parsed, ground arith, ground arith)

  -- The message changed neither tasks nor identities.
  idle :
      (env : Environment Cluster) (d : Draws) (ch : Chance) (msg : InboundMessage)
      (caller : Identity) (s v : Server Cluster)
      → (v.identities ≡ s.identities) × SameWork s v
      → MayDo env d ch msg caller s v
  idle env d ch msg caller s v (i, w) = inl (w, inl (ap (λ r. r.identities) i))

  -- One of two servers.
  if-MayDo :
      (env : Environment Cluster) (d : Draws) (ch : Chance) (msg : InboundMessage)
      (caller : Identity) (s : Server Cluster) (b : Bool) (v w : Server Cluster)
      → (b ≡ true → MayDo env d ch msg caller s v)
      → MayDo env d ch msg caller s w
      → MayDo env d ch msg caller s (if b then v else w)
  if-MayDo env d ch msg caller s true v w h k = h refl
  if-MayDo env d ch msg caller s false v w h k = k

  handle_commission-MayDo :
      (env : Environment Cluster) (d : Draws) (ch : Chance) (msg : InboundMessage)
      (caller : Identity) (s : Server Cluster)
      → MayDo env d ch msg caller s (handle_commission env d msg caller s)
  unfolding handle_commission reply
  handle_commission-MayDo env d ch msg caller s = parsed (parse_commission_command msg.content) refl
    where
      answer : Result CommandError CommissionRequest → Server Cluster
      answer r = elim r [
        | err not_a_command ↦ s
        | err e ↦
            reply msg (commission_rejected e)
              (emit (command_failed msg.surface msg.surface_user_id caller.role e) s)
        | ok req ↦
            if has_capability task_commission_code (some caller)
            then run_commission env d msg caller req s
            else reply_capability_refused msg task_commission_code s
      ]

      parsed :
          (r : Result CommandError CommissionRequest)
          → parse_commission_command msg.content ≡ r
          → MayDo env d ch msg caller s (answer r)
      parsed (err not_a_command) e = idle env d ch msg caller s s (refl, (refl, refl))
      parsed (err repo_required) e =
          idle env d ch msg caller s (answer (err repo_required)) (ground arith)
      parsed (err branch_missing) e =
          idle env d ch msg caller s (answer (err branch_missing)) (ground arith)
      parsed (err summary_missing) e =
          idle env d ch msg caller s (answer (err summary_missing)) (ground arith)
      parsed (ok req) e =
          if-MayDo env d ch msg caller s (has_capability task_commission_code (some caller))
            (run_commission env d msg caller req s)
            (reply_capability_refused msg task_commission_code s)
            (λ may. inr (run_commission-Commissions env d msg caller req s may e))
            (idle env d ch msg caller s (reply_capability_refused msg task_commission_code s)
              (refused-Same msg task_commission_code s))

  handle_known-MayDo :
      (env : Environment Cluster) (casing : Casing) (d : Draws) (ch : Chance) (msg : InboundMessage)
      (caller : Identity) (s : Server Cluster)
      → MayDo env d ch msg caller s (handle_known env casing d ch msg caller s)
  unfolding handle_known handle_status_query reply
  handle_known-MayDo env casing d ch msg caller s =
      let text = trim_space msg.content in
      if-MayDo env d ch msg caller s (is_command "/minos" text)
        (handle_minos_command ch msg caller s) _
        (λ _. inl (handle_minos_command-Writes ch msg caller s))
        (if-MayDo env d ch msg caller s
          (is_command "/status" text
            || casing.equal_fold text "what's running?"
            || casing.equal_fold text "what is running?")
          (if has_capability task_query_state (some caller)
            then handle_status_query msg s
            else reply_capability_refused msg task_query_state s)
          (handle_commission env d msg caller s)
          (λ _.
            if-MayDo env d ch msg caller s (has_capability task_query_state (some caller))
              (handle_status_query msg s) (reply_capability_refused msg task_query_state s)
              (λ _. idle env d ch msg caller s (handle_status_query msg s) (ground arith))
              (idle env d ch msg caller s (reply_capability_refused msg task_query_state s)
                (refused-Same msg task_query_state s)))
          (handle_commission-MayDo env d ch msg caller s))

  -- A chat message leaves the tasks, the pods and the identities as they were, but for two kinds of senders,
  -- which are registered: one with the capability to commission code tasks, whose message parses as a
  -- commission, gets the tasks and the pods of that commission; and one with a capability on identities gets one
  -- write of an identity: with that to approve, the identity of a request whose token is pending and not expired;
  -- with that to manage, a change of an identity. No message gives the role system.
  pub handle_inbound-Permitted :
      (env : Environment Cluster) (casing : Casing) (d : Draws) (ch : Chance) (msg : InboundMessage)
      (s : Server Cluster)
      → Permitted env d ch msg s (handle_inbound env casing d ch msg s)
  unfolding handle_inbound
  handle_inbound-Permitted env casing d ch msg s =
      elim (Bool-cases (is_command "/pair" (trim_space msg.content))) [
        | inl pairs ↦
            rw (pairs, handle_inbound)
              (inl ((handle_pair-Same ch msg s).1, (handle_pair-Same ch msg s).0))
        | inr others ↦
            elim (Result-cases (lookup_by_surface msg.surface msg.surface_user_id s.identities)) [
              | inr (x, e) ↦ rw (others, handle_inbound) (rw e (inl ((refl, refl), refl)))
              | inl (caller, e) ↦ inr (
                caller,
                e,
                rw (others, e, handle_inbound) (handle_known-MayDo env casing d ch msg caller s),
              )
            ]
      ]

  -- No chat message leaves a deployment that has an active admin without one, if the identifier that it draws
  -- for an identity is not in use.
  handle_inbound-keeps_admin :
      (env : Environment Cluster) (casing : Casing) (d : Draws) (ch : Chance) (msg : InboundMessage)
      (s : Server Cluster)
      → lookup ch.fresh s.identities.identities ≡ none
      → 1 ≤ count_active_admins s.identities.identities
      → 1 ≤ count_active_admins (handle_inbound env casing d ch msg s).identities.identities
  handle_inbound-keeps_admin env casing d ch msg s free h =
      elim (handle_inbound-Permitted env casing d ch msg s) [
        | inl (w, same) ↦ subst (λ m. 1 ≤ count_active_admins m) (sym same) h
        | inr (caller, e, inl (w, inl same)) ↦ subst (λ m. 1 ≤ count_active_admins m) (sym same) h
        | inr (caller, e, inl (w, inr (c, may, same))) ↦
            subst (λ m. 1 ≤ count_active_admins m) (sym same)
              (allowed-keeps_admin ch caller c s.identities free may h)
        | inr (caller, e, inr (may, same, req, e', m, k)) ↦
            subst (λ r. 1 ≤ count_active_admins r.identities) (sym same) h
      ]
