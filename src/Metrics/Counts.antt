-- ===== src/Metrics/Counts.antt =====
-- hooks.go and metrics.go: the counters count the events, and the caller's hooks are called as without them.
use r8e.Prelude.{
  ℕ, ◌+◌, ◌≡◌, refl, sym, ap, ap₂, Bool-cases, inl, inr, ◌∙◌, Bool, true, false, Option, none, some,
  List, [], ◌∷◌, ◌++◌, ◌==◌, arith, if◌then◌else◌,
}
use r8e.Metrics.{
  Hook, Counter, Hooks, PolicyMetrics, place, emit, counter_of, add_one, counting_hook,
  counted_hook, instrument, emit_all,
}
use r8e.Metrics.Wiring.{event, counter_of-event, event-counter_of, place-injective}

abbrev same_counter : Counter → Option Counter → Bool
same_counter c none = false
same_counter c (some d) = place c == place d

-- How many of the events are those of a counter.
pub data Occurs {ℓ} {A : Type ℓ} (c : Counter) : List (Hook × A) → ℕ → Type ℓ where
  at_end : Occurs c [] 0
  its_event :
      (hook : Hook) (a : A) (events : List (Hook × A)) (n : ℕ)
      → hook ≡ event c
      → Occurs c events n
      → Occurs c ((hook, a) ∷ events) (n + 1)
  other_event :
      (hook : Hook) (a : A) (events : List (Hook × A)) (n : ℕ)
      → ¬ (hook ≡ event c)
      → Occurs c events n
      → Occurs c ((hook, a) ∷ events) n

same_counter-event : (c : Counter) (o : Option Counter) → same_counter c o ≡ true → o ≡ some c
same_counter-event c none h = absurd (cc h)
same_counter-event c (some d) h = ap some (sym (place-injective c d (ground (arith, h))))

event-same_counter :
    (c : Counter) (hook : Hook) → same_counter c (counter_of hook) ≡ false → ¬ (hook ≡ event c)
event-same_counter c hook f e =
    let wired : counter_of hook ≡ some c = ap counter_of e ∙ counter_of-event c in
    let same : (place c == place c) ≡ true = ground arith in
    absurd (cc (sym same ∙ sym (ap (same_counter c) wired) ∙ f))

Occurs-step {ℓ} :
    {A : Type ℓ} (c : Counter) (hook : Hook) (a : A) (events : List (Hook × A)) (n : ℕ)
    → Occurs c events n
    → Occurs c ((hook, a) ∷ events) (if same_counter c (counter_of hook) then n + 1 else n)
Occurs-step c hook a events n v = elim (Bool-cases (same_counter c (counter_of hook))) [
  | inl t ↦
      rw t (its_event hook a events n (sym (event-counter_of hook c (same_counter-event c _ t))) v)
  | inr f ↦ rw f (other_event hook a events n (event-same_counter c hook f) v)
]

-- The events whose hook the caller has set.
unfoldable pub wanted {ℓ} : {A : Type ℓ} → Hooks → List (Hook × A) → List (Hook × A)
wanted user [] = []
wanted user ((hook, a) ∷ events) =
    let rest = wanted user events in if user hook then (hook, a) ∷ rest else rest

counted_hook-counts {ℓ} :
    {A : Type ℓ} (o : Option Counter) (m : PolicyMetrics) (user : Hooks) (hook : Hook) (a : A)
    (c : Counter)
    → ((counted_hook o m user hook a).0 c ≡ (if same_counter c o then m c + 1 else m c))
      × ((counted_hook o m user hook a).1 ≡ emit (some user) hook a)
unfolding counted_hook counting_hook add_one
counted_hook-counts none m user hook a c = (refl, refl)
counted_hook-counts (some d) m user hook a c = (refl, refl)

grow :
    (b : Bool) (before after rest total : ℕ)
    → after ≡ (if b then before + 1 else before)
    → total ≡ after + rest
    → total ≡ before + (if b then rest + 1 else rest)
grow true before after rest total h k = omega (arith, h, k)
grow false before after rest total h k = omega (arith, h, k)

put {ℓ} :
    {B : Type ℓ} (b : Bool) (x : B) (l : List B)
    → (if b then x ∷ [] else []) ++ l ≡ (if b then x ∷ l else l)
put true x l = refl
put false x l = refl

-- After any run of events, each counter has grown by the number of events that it is for, and the caller's
-- hooks were called for the events whose hook is set, in their order, with the same arguments.
pub emit_all-counts {ℓ} :
    {A : Type ℓ} (m : PolicyMetrics) (user : Hooks) (events : List (Hook × A)) (c : Counter)
    → ((n : ℕ) × Occurs c events n × ((emit_all m user events).0 c ≡ m c + n))
      × ((emit_all m user events).1 ≡ wanted user events)
unfolding emit_all wanted emit instrument
emit_all-counts m user [] c = ((0, at_end, omega arith), refl)
emit_all-counts {A = A} m user ((hook, a) ∷ events) c =
    let (counted, calls) = instrument m user hook a in
    let (grown, called) = counted_hook-counts (counter_of hook) m user hook a c in
    let ((n, occurs, later), rest) = emit_all-counts counted user events c in
    (
      (
        (if same_counter c (counter_of hook) then n + 1 else n),
        Occurs-step c hook a events n occurs,
        grow (same_counter c (counter_of hook)) (m c) (counted c) n _ grown later,
      ),
      ap₂ (λ (x y : List (Hook × A)). x ++ y) called rest
          ∙ put (user hook) (hook, a) (wanted user events),
    )
