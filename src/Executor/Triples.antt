-- ===== src/Executor/Triples.antt =====
-- Reasoning about the log of src/sync/executor.ts: a rule for each way in which effects are composed.
-- A rule `P` says what may be called after which past; `Q` says what a returned value and the log tell.
use mineral_obsidian_sync.Base.{Bool, true, false, ◌≡◌, refl, [], ◌∷◌, ◌⊎◌, inl, inr, if◌then◌else◌}
use mineral_obsidian_sync.Remote.Client.{Error, Try, ok, raised}
use mineral_obsidian_sync.Executor.Effects.{
  Event, History, M, ret, throw, proceed, attempt, answer, ◌>>=◌,
}

-- Every call of the log was allowed after its past.
abbrev pub Traced : (Event → History → Type 0) → History → Type 0
Traced P [] = Unit
Traced P (e ∷ h) = P e h × Traced P h

-- Some call of the log is of the kind `K`.
abbrev pub Occurs : (Event → Type 0) → History → Type 0
Occurs K [] = ⊥
Occurs K (e ∷ h) = K e ⊎ Occurs K h

abbrev pub Ends {ℓ} :
    {A : Type ℓ} → (Event → History → Type 0) → (A → History → Type 0) → Try A × History → Type 0
Ends P Q (ok a, h) = Q a h × Traced P h
Ends P Q (raised e, h) = Traced P h

abbrev pub Anything {ℓ} : {A : Type ℓ} → A → History → Type 0
Anything a h = Unit

pub Ends-Traced {ℓ} :
    {A : Type ℓ} (P : Event → History → Type 0) (r : Try A × History)
    → Ends P Anything r
    → Traced P r.1
Ends-Traced P (ok a, h) t = t.1
Ends-Traced P (raised e, h) t = t

-- From a log that satisfies `Pre`, every call of `m` is allowed and its value satisfies `Q`.
pub record Keeps {ℓ} {A : Type ℓ} (P : Event → History → Type 0) (Pre : History → Type 0) (m : M A)
    (Q : A → History → Type 0) : Type 0 where
  pub run : (h : History) → Pre h → Traced P h → Ends P Q (m h)

abbrev pub Always : History → Type 0
Always h = Unit

-- A postcondition on the outcome of a `try`.
abbrev pub IfOk {ℓ} : {A : Type ℓ} → (A → History → Type 0) → Try A → History → Type 0
IfOk Q (ok a) h = Q a h
IfOk Q (raised e) h = Unit

module _ (P : Event → History → Type 0) where
  attempt-Ends {ℓ} :
      {A : Type ℓ} (r : Try A × History) (Q : A → History → Type 0)
      → Ends P Q r
      → Ends P (IfOk Q) (let (x, h') = r in (ok x, h'))
  attempt-Ends (ok a, h) Q t = t
  attempt-Ends (raised e, h) Q t = (tt, t)

  forget-Ends {ℓ} :
      {A : Type ℓ} (r : Try A × History)
      → Ends P Anything r
      → Ends P Anything (let (x, h') = r in (ok x, h'))
  forget-Ends (ok a, h) t = t
  forget-Ends (raised e, h) t = (tt, t)

  forgotten-Ends {ℓ} :
      {A : Type ℓ} (r : Try A × History) (Q : A → History → Type 0) → Ends P Q r → Ends P Anything r
  forgotten-Ends (ok a, h) Q (q, t) = (tt, t)
  forgotten-Ends (raised e, h) Q t = t

  answer-Ends {ℓ} :
      {A : Type ℓ} (r : Try A) (e : Event) (h : History) (Q : A → History → Type 0)
      → P e h
      → Traced P h
      → ((a : A) → r ≡ ok a → Q a (e ∷ h))
      → Ends P Q (answer r e h)
  answer-Ends (ok a) e h Q p t q = (q a refl, (p, t))
  answer-Ends (raised x) e h Q p t q = (p, t)

module _ {P : Event → History → Type 0} where
  proceed-Ends {ℓ κ} :
      {A : Type ℓ} {B : Type κ} (r : Try A × History) (f : A → M B) (Q : A → History → Type 0)
      (R : B → History → Type 0)
      → Ends P Q r
      → ((a : A) → Keeps P (Q a) (f a) R)
      → Ends P R (proceed r f)
  proceed-Ends (ok a, h) f Q R (q, t) k = (k a).run h q t
  proceed-Ends (raised e, h) f Q R t k = t

  pub bind-Keeps {ℓ κ} :
      {A : Type ℓ} {B : Type κ} {m : M A} {f : A → M B} {Pre : History → Type 0}
      {Q : A → History → Type 0} {R : B → History → Type 0}
      → Keeps P Pre m Q
      → ((a : A) → Keeps P (Q a) (f a) R)
      → Keeps P Pre (m >>= f) R
  unfolding ◌>>=◌
  bind-Keeps {m} {f} {Q} {R} k l = record {
    run = λ h p t. proceed-Ends (m h) f Q R (k.run h p t) l;
  }

  pub attempt-Keeps {ℓ} :
      {A : Type ℓ} {m : M A} {Pre : History → Type 0} {Q : A → History → Type 0}
      → Keeps P Pre m Q
      → Keeps P Pre (attempt m) (IfOk Q)
  unfolding attempt
  attempt-Keeps {m} {Q} k = record { run = λ h p t. attempt-Ends P (m h) Q (k.run h p t) }

  pub if-Keeps {ℓ} :
      {A : Type ℓ} (b : Bool) {m n : M A} {Pre : History → Type 0} {Q : A → History → Type 0}
      → (b ≡ true → Keeps P Pre m Q)
      → (b ≡ false → Keeps P Pre n Q)
      → Keeps P Pre (if b then m else n) Q
  if-Keeps true k l = k refl
  if-Keeps false k l = l refl

  pub ret-Keeps {ℓ} :
      {A : Type ℓ} (a : A) {Pre : History → Type 0} {Q : A → History → Type 0}
      → ((h : History) → Pre h → Q a h)
      → Keeps P Pre (ret a) Q
  unfolding ret
  ret-Keeps a q = record { run = λ h p t. (q h p, t) }

  pub throw-Keeps {ℓ} :
      {A : Type ℓ} (e : Error) {Pre : History → Type 0} {Q : A → History → Type 0}
      → Keeps P Pre (throw e) Q
  unfolding throw
  throw-Keeps e = record { run = λ h p t. t }

  pub weaken-Keeps {ℓ} :
      {A : Type ℓ} {m : M A} {Pre Pre' : History → Type 0} {Q : A → History → Type 0}
      → ((h : History) → Pre' h → Pre h)
      → Keeps P Pre m Q
      → Keeps P Pre' m Q
  weaken-Keeps w k = record { run = λ h p t. k.run h (w h p) t }

  -- A precondition that every log satisfies or none can be used before the first call.
  pub given-Keeps {ℓ} :
      {A : Type ℓ} {F : Type 0} {m : M A} {Pre : History → Type 0} {Q : A → History → Type 0}
      → ((h : History) → Pre h → F)
      → (F → Keeps P Pre m Q)
      → Keeps P Pre m Q
  given-Keeps f k = record { run = λ h p t. (k (f h p)).run h p t }

  -- A call whose answer `f` takes from the environment and whose log entry is `g`.
  pub call-Keeps {ℓ} :
      {A : Type ℓ} (f : History → Try A) (g : Try A → Event) {Pre : History → Type 0}
      {Q : A → History → Type 0}
      → ((r : Try A) (h : History) → Pre h → P (g r) h)
      → ((a : A) (h : History) → Pre h → Q a (g (ok a) ∷ h))
      → Keeps P Pre (λ h. answer (f h) (g (f h)) h) Q
  call-Keeps f g {Q} allowed post = record {
    run =
        λ h p t. answer-Ends P (f h) (g (f h)) h Q (allowed (f h) h p) t (λ a e. rw e (post a h p));
  }

  -- A call that cannot throw.
  pub plain-Keeps {ℓ} :
      {A : Type ℓ} (f : History → A) (g : A → Event) {Pre : History → Type 0}
      {Q : A → History → Type 0}
      → ((a : A) (h : History) → Pre h → P (g a) h)
      → ((a : A) (h : History) → Pre h → Q a (g a ∷ h))
      → Keeps P Pre (λ h. (ok (f h), g (f h) ∷ h)) Q
  plain-Keeps f g allowed post = record { run = λ h p t. (post (f h) h p, (allowed (f h) h p, t)) }

  -- Where nothing is asked of the outcome of a `try`.
  pub caught-Keeps {ℓ} :
      {A : Type ℓ} {m : M A} {Pre : History → Type 0}
      → Keeps P Pre m Anything
      → Keeps P Pre (attempt m) Anything
  unfolding attempt
  caught-Keeps {m} k = record { run = λ h p t. forget-Ends P (m h) (k.run h p t) }

  pub forget-Keeps {ℓ} :
      {A : Type ℓ} {m : M A} {Pre : History → Type 0} {Q : A → History → Type 0}
      → Keeps P Pre m Q
      → Keeps P Pre m Anything
  forget-Keeps {m} {Q} k = record { run = λ h p t. forgotten-Ends P (m h) Q (k.run h p t) }

  -- A call under `try`.
  pub tried-Keeps {ℓ} :
      {A : Type ℓ} (f : History → Try A) (g : Try A → Event) {Pre : History → Type 0}
      {Q : Try A → History → Type 0}
      → ((r : Try A) (h : History) → Pre h → P (g r) h)
      → ((r : Try A) (h : History) → Pre h → Q r (g r ∷ h))
      → Keeps P Pre (attempt (λ h. answer (f h) (g (f h)) h)) Q
  unfolding attempt
  tried-Keeps f g allowed post = record { run = λ h p t. (post (f h) h p, (allowed (f h) h p, t)) }

  pub done-Keeps {ℓ} : {A : Type ℓ} (a : A) {Pre : History → Type 0} → Keeps P Pre (ret a) Anything
  unfolding ret
  done-Keeps a = record { run = λ h p t. (tt, t) }

pub Occurs-map :
    {K L : Event → Type 0} → ((e : Event) → K e → L e) → (h : History) → Occurs K h → Occurs L h
Occurs-map f [] o = o
Occurs-map f (e ∷ h) (inl k) = inl (f e k)
Occurs-map f (e ∷ h) (inr o) = inr (Occurs-map f h o)
