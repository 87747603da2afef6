-- ===== src/Store/Handler.antt =====
-- A route handler: it runs on the shared state, and goes on, answers early, or throws. The state
-- comes back in each case, since what was written stays written.
use openwrapper.Prelude.{Bool, true, false, [], ◌∷◌, ◌++◌}
use openwrapper.Store.{World, RequestRecord}

pub data Step (R A : Type 0) : Type 0 where
  next : A → World → Step R A
  reply : R → World → Step R A
  raise : World → Step R A

abbrev pub Handler : Type 0 → Type 0 → Type 0
Handler R A = World → Step R A

module _ {R : Type 0} where
  infixl 5 ◌>>=◌ ◌>>◌
  abbrev pub ◌>>=◌ : {A B : Type 0} → Handler R A → (A → Handler R B) → Handler R B
  ◌>>=◌ m f w = elim (m w) [ next a w' ↦ f a w' | reply r w' ↦ reply r w' | raise w' ↦ raise w' ]

  abbrev pub ◌>>◌ : {A B : Type 0} → Handler R A → Handler R B → Handler R B
  m >> k = m >>= λ _. k

  abbrev pub pure : {A : Type 0} → A → Handler R A
  pure a w = next a w

  -- `return NextResponse.json(…)`
  abbrev pub answer : {A : Type 0} → R → Handler R A
  answer r w = reply r w

  abbrev pub throw : {A : Type 0} → Handler R A
  throw w = raise w

  abbrev pub gets : {A : Type 0} → (World → A) → Handler R A
  gets f w = next (f w) w

  abbrev pub modify : (World → World) → Handler R (Unit {0})
  modify f w = next tt (f w)

  -- `if (c) …`, where the branch may answer.
  abbrev pub when : Bool → Handler R (Unit {0}) → Handler R (Unit {0})
  when true m = m
  when false m = pure tt

  -- The state that a run leaves.
  abbrev pub final : {A : Type 0} → Step R A → World
  final (next _ w) = w
  final (reply _ w) = w
  final (raise w) = w

-- `scheduleApiRequestRecord(record)`
abbrev pub schedule : {R : Type 0} → RequestRecord → Handler R (Unit {0})
schedule r w = next tt (record w { scheduled = w.scheduled ++ r ∷ [] })
