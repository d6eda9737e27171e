-- ===== src/Minos/Minting/Scopes.antt =====
-- What a minted token allows (minos/core/commission.go, composeCapabilities).
use zakros.Base.{
  string_equality, same_text_iff, ◌==◌, String, List, [], ◌∷◌, ◌++◌, some, true, ◌≡◌, ◌⊎◌, ◌↔◌, inl,
  inr, refl, sym, ◌∙◌, ap, subst, arith, map, Has, here, there, Has-cons, Has-one, if◌then◌else◌,
  Bool-cases,
}
use mathlib.Core.List.{append-nil, append_assoc}
use zakros.Base.Maps.{Map, lookup, insert, lookup-insert}
use zakros.Base.Clock.{Time}
use zakros.Envelope.{HecateCredential, McpEndpoint}
use zakros.Storage.{Uuid}
use zakros.Projects.{Project}
use zakros.Auth.{scopes_of, listed, has_scope}
use zakros.Minos.{Environment}
use zakros.Minos.Minting.{fetch_scope, base_scopes, add_scopes, claims_of}

listed-Has : (op : String) (xs : List String) → listed op xs ≡ true → Has op xs
unfolding listed
listed-Has op [] h = cc
listed-Has op (x ∷ xs) h = elim (Bool-cases (x == op)) [
  | inl e ↦ subst (λ y. Has op (y ∷ xs)) (sym ((same_text_iff x op).0 e)) here
  | inr e ↦ there (listed-Has op xs (ground arith))
]

pub Has-listed : (op : String) {xs : List String} → Has op xs → listed op xs ≡ true
unfolding listed
Has-listed op (here {ys}) = ground (arith, same_text_iff op op)
Has-listed op (there {y} {ys} m) = ground (arith, Has-listed op m)

Has-append : {A : Type 0} (x : A) (xs ys : List A) → Has x (xs ++ ys) ↔ (Has x xs ⊎ Has x ys)
Has-append x xs ys = (split xs, λ e. elim e [ inl m ↦ left m | inr m ↦ right xs m ])
  where
    grow : (y : _) (zs : List _) → Has x zs ⊎ Has x ys → Has x (y ∷ zs) ⊎ Has x ys
    grow y zs (inl m) = inl (there m)
    grow y zs (inr m) = inr m

    split : (zs : List _) → Has x (zs ++ ys) → Has x zs ⊎ Has x ys
    split [] m = inr m
    split (y ∷ zs) here = inl here
    split (y ∷ zs) (there m) = grow y zs (split zs m)

    left : {zs : List _} → Has x zs → Has x (zs ++ ys)
    left here = here
    left (there m) = there (left m)

    right : (zs : List _) → Has x ys → Has x (zs ++ ys)
    right [] m = m
    right (z ∷ zs) m = there (right zs m)

-- The scopes of the endpoints that have a given name, in order.
endpoint_scopes : String → List McpEndpoint → List String
endpoint_scopes broker [] = []
endpoint_scopes broker (ep ∷ eps) =
    let rest = endpoint_scopes broker eps in if ep.name == broker then ep.scopes ++ rest else rest

scopes_of-insert :
    (k j : String) (v : List String) (m : Map String (List String))
    → scopes_of j (insert k v m) ≡ (if k == j then v else scopes_of j m)
scopes_of-insert k j v m = ground (arith, lookup-insert k j v m)

scopes_of-add :
    (broker : String) (eps : List McpEndpoint) (m : Map String (List String))
    → scopes_of broker (add_scopes eps m) ≡ scopes_of broker m ++ endpoint_scopes broker eps
unfolding add_scopes endpoint_scopes
scopes_of-add broker [] m = sym (append-nil (scopes_of broker m))
scopes_of-add broker (ep ∷ eps) m =
    scopes_of-add broker eps (insert ep.name (scopes_of ep.name m ++ ep.scopes) m)
    ∙ elim (Bool-cases (ep.name == broker)) [
      | inl same ↦ rw (scopes_of-insert ep.name broker (scopes_of ep.name m ++ ep.scopes) m) (
          rw same (
            rw ((same_text_iff ep.name broker).0 same)
              (append_assoc (scopes_of broker m) ep.scopes (endpoint_scopes broker eps))))
      | inr apart ↦
          rw (scopes_of-insert ep.name broker (scopes_of ep.name m ++ ep.scopes) m) (rw apart refl)
    ]

-- What every pod may do at a broker, and what its Hecate credentials add.
base_ops : String → List HecateCredential → List String
base_ops broker hcs =
    if broker == "minos"
    then "task.lifecycle" ∷ []
    else if broker == "argus"
    then "heartbeat" ∷ []
    else if broker == "hecate"
    then map fetch_scope hcs
    else []

scopes_of-base :
    (broker : String) (hcs : List HecateCredential)
    → scopes_of broker (base_scopes hcs) ≡ base_ops broker hcs
unfolding lookup base_ops
scopes_of-base broker [] = ground (
  arith,
  same_text_iff "minos" broker,
  same_text_iff "argus" broker,
  same_text_iff broker "minos",
  same_text_iff broker "argus",
)
scopes_of-base broker (hc ∷ hcs) = ground (
  arith,
  same_text_iff "minos" broker,
  same_text_iff "argus" broker,
  same_text_iff "hecate" broker,
  same_text_iff broker "minos",
  same_text_iff broker "argus",
  same_text_iff broker "hecate",
)

-- Some endpoint of the project with the broker's name lists the operation.
abbrev pub Lists : String → String → List McpEndpoint → Type 0
Lists broker op eps = (ep : McpEndpoint) × Has ep eps × (ep.name ≡ broker) × Has op ep.scopes

-- Some credential of the project is fetched under this scope.
abbrev Fetches : String → List HecateCredential → Type 0
Fetches op hcs = (hc : HecateCredential) × Has hc hcs × (op ≡ fetch_scope hc)

-- What a pod may do by itself: report on its own task, send heartbeats, and fetch the project's own
-- credentials.
abbrev Allows : List HecateCredential → String → String → Type 0
Allows hcs broker op =
    ((broker ≡ "minos") × (op ≡ "task.lifecycle"))
    ⊎ (((broker ≡ "argus") × (op ≡ "heartbeat")) ⊎ ((broker ≡ "hecate") × Fetches op hcs))

-- What a pod of the project may do: that, and what the project's endpoints list.
abbrev pub Grants : Project → String → String → Type 0
Grants proj broker op =
    Allows proj.capabilities.hecate_credentials broker op
    ⊎ Lists broker op proj.capabilities.mcp_endpoints

endpoint_scopes-Lists :
    (broker op : String) (eps : List McpEndpoint)
    → Has op (endpoint_scopes broker eps)
    → Lists broker op eps
unfolding endpoint_scopes
endpoint_scopes-Lists broker op [] h = elim h [ ]
endpoint_scopes-Lists broker op (ep ∷ eps) h = elim (Bool-cases (ep.name == broker)) [
  | inl same ↦
      elim ((Has-append op ep.scopes (endpoint_scopes broker eps)).0 (
        subst
          (λ b.
            Has op
              (if b then ep.scopes ++ endpoint_scopes broker eps else endpoint_scopes broker eps))
          same h)) [
            | inl m ↦ (ep, here, (same_text_iff ep.name broker).0 same, m)
            | inr m ↦ further (endpoint_scopes-Lists broker op eps m)
          ]
  | inr apart ↦ further (
      endpoint_scopes-Lists broker op eps (
        subst
          (λ b.
            Has op
              (if b then ep.scopes ++ endpoint_scopes broker eps else endpoint_scopes broker eps))
          apart h))
]
  where
    further : Lists broker op eps → Lists broker op (ep ∷ eps)
    further (e, m, same, o) = (e, there m, same, o)

Lists-endpoint_scopes :
    (broker op : String) (ep : McpEndpoint) {eps : List McpEndpoint}
    → Has ep eps
    → ep.name ≡ broker
    → Has op ep.scopes
    → Has op (endpoint_scopes broker eps)
unfolding endpoint_scopes
Lists-endpoint_scopes broker op ep (here {ys = eps}) same o =
    rw ((same_text_iff ep.name broker).1 same)
      ((Has-append op ep.scopes (endpoint_scopes broker eps)).1 (inl o))
Lists-endpoint_scopes broker op ep (there {y = e} {ys = eps} m) same o =
    elim (Bool-cases (e.name == broker)) [
      | inl b ↦ rw b (
          (Has-append op e.scopes (endpoint_scopes broker eps)).1
            (inr (Lists-endpoint_scopes broker op ep m same o)))
      | inr b ↦ rw b (Lists-endpoint_scopes broker op ep m same o)
    ]

Has-nil : {x : String} → Has x [] → ⊥
Has-nil h = elim h [ ]

Has-fetch :
    (op : String) (hcs : List HecateCredential) → Has op (map fetch_scope hcs) → Fetches op hcs
Has-fetch op [] h = elim h [ ]
Has-fetch op (hc ∷ hcs) h = elim (Has-cons h) [
  | inl e ↦ (hc, here, e)
  | inr m ↦ let (k, n, e) = Has-fetch op hcs m in (k, there n, e)
]

fetch-Has :
    (hc : HecateCredential) {hcs : List HecateCredential}
    → Has hc hcs
    → Has (fetch_scope hc) (map fetch_scope hcs)
fetch-Has hc here = here
fetch-Has hc (there m) = there (fetch-Has hc m)

base_ops-split :
    (broker op : String) (hcs : List HecateCredential)
    → Has op (base_ops broker hcs)
    → Allows hcs broker op
unfolding base_ops
base_ops-split broker op hcs h = elim (Bool-cases (broker == "minos")) [
  | inl e ↦ inl ((same_text_iff broker "minos").0 e, Has-one (subst (Has op) (rw e refl) h))
  | inr m ↦ elim (Bool-cases (broker == "argus")) [
    | inl e ↦
        inr
          (inl ((same_text_iff broker "argus").0 e, Has-one (subst (Has op) (rw m (rw e refl)) h)))
    | inr a ↦ elim (Bool-cases (broker == "hecate")) [
      | inl e ↦ inr (
          inr (
            (same_text_iff broker "hecate").0 e,
            Has-fetch op hcs (subst (Has op) (rw m (rw a (rw e refl))) h),
          ))
      | inr k ↦ absurd (Has-nil (subst (Has op) (rw m (rw a (rw k refl))) h))
    ]
  ]
]

base_ops-of :
    (broker op : String) (hcs : List HecateCredential)
    → Allows hcs broker op
    → Has op (base_ops broker hcs)
unfolding base_ops
base_ops-of broker op hcs (inl (b, o)) = rw b (rw o here)
base_ops-of broker op hcs (inr (inl (b, o))) = rw b (rw o here)
base_ops-of broker op hcs (inr (inr (b, (hc, m, o)))) = rw b (rw o (fetch-Has hc m))

module _ {Cluster : Type 0} where
  -- The token of a pod allows an operation at a broker exactly if every pod may do it there (report on
  -- its own task at Minos, heartbeats at Argus), or it fetches one of the project's credentials from
  -- Hecate, or an endpoint of the project with the broker's name lists it.
  pub claims_of-Grants :
      (env : Environment Cluster) (task_id : Uuid) (jti : String) (now : Time) (proj : Project)
      (broker op : String)
      → (has_scope broker op (some (claims_of env task_id jti now proj)) ≡ true)
        ↔ Grants proj broker op
  unfolding has_scope claims_of
  claims_of-Grants env task_id jti now proj broker op = (to, from)
    where
      hcs : List HecateCredential
      hcs = proj.capabilities.hecate_credentials

      eps : List McpEndpoint
      eps = proj.capabilities.mcp_endpoints

      scopes :
          scopes_of broker (add_scopes eps (base_scopes hcs))
          ≡ base_ops broker hcs ++ endpoint_scopes broker eps
      scopes =
          scopes_of-add broker eps (base_scopes hcs)
          ∙ ap (λ b. b ++ endpoint_scopes broker eps) (scopes_of-base broker hcs)

      all : List String
      all = scopes_of broker (add_scopes eps (base_scopes hcs))

      parts : Has op all ↔ (Has op (base_ops broker hcs) ⊎ Has op (endpoint_scopes broker eps))
      parts =
          subst
            (λ xs. Has op xs ↔ (Has op (base_ops broker hcs) ⊎ Has op (endpoint_scopes broker eps)))
            (sym scopes) (Has-append op (base_ops broker hcs) (endpoint_scopes broker eps))

      to : listed op all ≡ true → Grants proj broker op
      to h = elim (parts.0 (listed-Has op all h)) [
        | inl m ↦ inl (base_ops-split broker op hcs m)
        | inr m ↦ inr (endpoint_scopes-Lists broker op eps m)
      ]

      from : Grants proj broker op → listed op all ≡ true
      from (inl a) = Has-listed op (parts.1 (inl (base_ops-of broker op hcs a)))
      from (inr (ep, m, same, o)) =
          Has-listed op (parts.1 (inr (Lists-endpoint_scopes broker op ep m same o)))
