-- ===== src/Plugins/Switch/Calls.antt =====
-- Which switch plugins are called (src/quads/plugins/dispatchers/switch.py), and what the answer says.
use quads.Base.{
  ◌≡◌, ◌≢◌, ◌↔◌, ◌⊎◌, refl, ap, Bool, true, false, List, [], ◌∷◌, ◌++◌, arith, All, Bool-cases, inl,
  inr, if◌then◌else◌,
}
use quads.Plugins.Switch.{
  Answer, affirmed, other, raised, is_true, until_failure, over_all, configure, verify,
}

-- All the plugins answered True and were called, or the calls end with the first that did not.
pub record IsSequential {ℓ} {A : Type ℓ} (operation : A → Answer) (plugins : List A) (answer : Bool)
    (called : List A) : Type ℓ where
  pub before : List A
  pub after : List A
  pub split : plugins ≡ before ++ after
  pub affirmed_before : All (λ p. operation p ≡ affirmed) before
  pub outcome :
      ((answer ≡ true) × (after ≡ []) × (called ≡ before))
      ⊎ ((p : A) × (rest : List A) × (answer ≡ false)
          × (after ≡ p ∷ rest)
          × (operation p ≢ affirmed)
          × (called ≡ before ++ p ∷ []))

is_true_iff : (a : Answer) → (is_true a ≡ true) ↔ (a ≡ affirmed)
is_true_iff affirmed = (λ _. refl, λ _. refl)
is_true_iff other = (λ h. ground arith, λ h. cc)
is_true_iff raised = (λ h. ground arith, λ h. cc)

module _ {ℓ} {A : Type ℓ} (operation : A → Answer) where
  until_failure-IsSequential :
      (plugins : List A)
      → IsSequential operation plugins
          (until_failure operation plugins).0
          (until_failure operation plugins).1
  unfolding until_failure
  until_failure-IsSequential [] = record {
    before = [];
    after = [];
    split = refl;
    affirmed_before = tt;
    outcome = inl (refl, refl, refl);
  }
  until_failure-IsSequential (p ∷ plugins) = elim (Bool-cases (is_true (operation p))) [
    | inl yes_p ↦
        let rest = until_failure-IsSequential plugins in
        rw yes_p (record {
          before = p ∷ rest.before;
          after = rest.after;
          split = ap (λ l. p ∷ l) rest.split;
          affirmed_before = ((is_true_iff (operation p)).0 yes_p, rest.affirmed_before);
          outcome = elim rest.outcome [
            | inl (a, b, c) ↦ inl (a, b, ap (λ l. p ∷ l) c)
            | inr (q, tail, a, b, c, d) ↦ inr (q, tail, a, b, c, ap (λ l. p ∷ l) d)
          ];
        })
    | inr no_p ↦ rw no_p (record {
      before = [];
      after = p ∷ plugins;
      split = refl;
      affirmed_before = tt;
      outcome =
          inr (p, plugins, refl, refl, (λ e. let t = (is_true_iff (operation p)).1 e in cc), refl);
    })
  ]

  over_all-called : (ok : Bool) (plugins : List A) → (over_all operation ok plugins).1 ≡ plugins
  unfolding over_all
  over_all-called ok [] = refl
  over_all-called ok (p ∷ plugins) =
      ap (λ l. p ∷ l) (over_all-called (if is_true (operation p) then ok else false) plugins)

  over_all-answer :
      (ok : Bool) (plugins : List A)
      → ((over_all operation ok plugins).0 ≡ true)
        ↔ ((ok ≡ true) × All (λ p. operation p ≡ affirmed) plugins)
  unfolding over_all
  over_all-answer ok [] = (λ h. (h, tt), λ h. h.0)
  over_all-answer ok (p ∷ plugins) =
      let rest = over_all-answer (if is_true (operation p) then ok else false) plugins in
      let one = is_true_iff (operation p) in
      (
        λ h. let (both, others) = rest.0 h in (ground arith, (one.0 (ground arith), others)),
        λ (good, (first_p, others)). rest.1 (rw (one.1 first_p) good, others),
      )

-- Configuring calls the switch plugins in order and stops at the first that does not answer True: with at
-- least one plugin the answer is True exactly where none failed.
pub configure-IsSequential {ℓ} :
    {A : Type ℓ} (operation : A → Answer) (p : A) (plugins : List A)
    → IsSequential operation
        (p ∷ plugins)
        (configure operation (p ∷ plugins)).0
        (configure operation (p ∷ plugins)).1
unfolding configure
configure-IsSequential operation p plugins = until_failure-IsSequential operation (p ∷ plugins)

-- Verifying calls every switch plugin, whatever the others answer, and the answer is True exactly where
-- there is a plugin and all of them answer True.
pub verify-All :
    {A : Type 0} (operation : A → Answer) (plugins : List A)
    → ((verify operation plugins).1 ≡ plugins)
      × (((verify operation plugins).0 ≡ true)
          ↔ ((plugins ≢ []) × All (λ p. operation p ≡ affirmed) plugins))
unfolding verify
verify-All operation [] = (refl, (λ h. ground arith, λ h. absurd (h.0 refl)))
verify-All operation (p ∷ plugins) =
    let answer = over_all-answer operation true (p ∷ plugins) in
    (
      over_all-called operation true (p ∷ plugins),
      (λ h. ((λ e. cc), (answer.0 h).1), λ h. answer.1 (refl, h.1)),
    )
