-- ===== src/Argus/Deletions.antt =====
-- The pods that a pass of the rules engine deletes (minos/argus/argus.go, evaluate).
use zakros.Base.{
  nat_equality, String, List, [], ◌∷◌, ◌++◌, ◌≡◌, refl, sym, ◌∙◌, ap, subst, All, Has, here, there,
  Has-one, map,
}
use zakros.Base.Clock.{Time}
use zakros.Dispatch.{Dispatcher}
use zakros.Argus.{State, World}
use zakros.Argus.Rules.{evaluate_one, evaluate_each}
use zakros.Argus.Outcomes.{finished, spared, evaluate_one-Outcome}

-- A pod's namespace and name.
abbrev pub Pod : Type 0
Pod = String × String

abbrev pub pod_of : State → Pod
pod_of st = (st.namespace, st.pod_name)

-- Every pod of the list is that of an entry.
abbrev pub PodsOf : List State → List Pod → Type 0
PodsOf sts = All (λ p. Has p (map pod_of sts))

All-weaken :
    {A : Type 0} (P Q : A → Type 0) (xs : List A) → ((x : A) → P x → Q x) → All P xs → All Q xs
All-weaken P Q [] f h = tt
All-weaken P Q (x ∷ xs) f h = (f x h.0, All-weaken P Q xs f h.1)

All-append : {A : Type 0} (P : A → Type 0) (xs ys : List A) → All P xs → All P ys → All P (xs ++ ys)
All-append P [] ys h k = k
All-append P (x ∷ xs) ys h k = (h.0, All-append P xs ys h.1 k)

-- The pods of an entry, followed by those of others.
pub PodsOf-cons :
    (st : State) (sts : List State) (ps qs : List Pod)
    → PodsOf (st ∷ []) ps
    → PodsOf sts qs
    → PodsOf (st ∷ sts) (ps ++ qs)
PodsOf-cons st sts ps qs h k =
    All-append Q ps qs
      (All-weaken (λ p. Has p (map pod_of (st ∷ []))) Q ps
        (λ x m. subst (λ y. Has y (map pod_of (st ∷ sts))) (sym (Has-one m)) here) h)
      (All-weaken (λ p. Has p (map pod_of sts)) Q qs (λ x m. there m) k)
  where
    Q : Pod → Type 0
    Q p = Has p (map pod_of (st ∷ sts))

Has-later : {A : Type 0} {x : A} (ys : List A) {zs : List A} → Has x zs → Has x (ys ++ zs)
Has-later [] h = h
Has-later (y ∷ ys) h = there (Has-later ys h)

module _ {Cluster : Type 0} (d : Dispatcher Cluster) where
  -- The pods are deleted one after another.
  abbrev pub delete_all : List Pod → Cluster → Cluster
  delete_all [] c = c
  delete_all ((namespace, name) ∷ ps) c = delete_all ps (d.delete_pod namespace name c).0

  pub delete_all-append :
      (ps qs : List Pod) (c : Cluster) → delete_all (ps ++ qs) c ≡ delete_all qs (delete_all ps c)
  delete_all-append [] qs c = refl
  delete_all-append ((namespace, name) ∷ ps) qs c =
      delete_all-append ps qs (d.delete_pod namespace name c).0

  -- The second cluster is the first one less pods of the entries.
  abbrev pub Deletes : List State → Cluster → Cluster → Type 0
  Deletes sts c e = (ps : List Pod) × PodsOf sts ps × (e ≡ delete_all ps c)

  -- The pod of the entry is deleted on the way.
  abbrev pub IsDeleted : State → Cluster → Cluster → Type 0
  IsDeleted st c e = (ps : List Pod) × Has (pod_of st) ps × (e ≡ delete_all ps c)

  pub Deletes-cons :
      (st : State) (sts : List State) (c e g : Cluster)
      → Deletes (st ∷ []) c e
      → Deletes sts e g
      → Deletes (st ∷ sts) c g
  Deletes-cons st sts c e g (ps, h, p) (qs, k, q) = (
    ps ++ qs,
    PodsOf-cons st sts ps qs h k,
    q ∙ ap (delete_all qs) p ∙ sym (delete_all-append ps qs c),
  )

  pub Deletes-IsDeleted :
      (st : State) (sts : List State) (c e g : Cluster)
      → e ≡ (d.delete_pod st.namespace st.pod_name c).0
      → Deletes sts e g
      → IsDeleted st c g
  Deletes-IsDeleted st sts c e g p (qs, _, q) = (pod_of st ∷ qs, here, q ∙ ap (delete_all qs) p)

  pub IsDeleted-later :
      (st : State) (sts : List State) (c e g : Cluster)
      → Deletes sts c e
      → IsDeleted st e g
      → IsDeleted st c g
  IsDeleted-later st sts c e g (ps, _, p) (qs, m, q) =
      (ps ++ qs, Has-later ps m, q ∙ ap (delete_all qs) p ∙ sym (delete_all-append ps qs c))

  module _ (now wall : Time) where
    pub evaluate_one-Deletes :
        (st : State) (w : World Cluster)
        → Deletes (st ∷ []) w.cluster (evaluate_one d now wall st w).cluster
    evaluate_one-Deletes st w = elim (evaluate_one-Outcome d now wall st w) [
      | finished f ↦ (pod_of st ∷ [], (here, tt), f.cluster)
      | spared p ↦ ([], tt, p.cluster)
    ]

    pub evaluate_each-Deletes :
        (sts : List State) (w : World Cluster)
        → Deletes sts w.cluster (evaluate_each d now wall sts w).cluster
    unfolding evaluate_each
    evaluate_each-Deletes [] w = ([], tt, refl)
    evaluate_each-Deletes (st ∷ sts) w =
        let v = evaluate_one d now wall st w in
        Deletes-cons st sts w.cluster v.cluster (evaluate_each d now wall sts v).cluster
          (evaluate_one-Deletes st w) (evaluate_each-Deletes sts v)
