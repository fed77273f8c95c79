-- ===== src/Search/Bar.antt =====
-- web/src/components/molecules/SearchBar/SearchBar.tsx: the input that searches after a pause.
pub mod Timers
use agentforum.Base.{
  ℕ, zero, suc, ◌+◌, Bool, Option, none, some, List, [], ◌∷◌, ◌++◌, Text, ◌==◌, nat_eq,
  if◌then◌else◌,
}

-- `timers` are those that the browser runs, with the query that each will search for; the browser
-- numbers timers from 1 on. `timer_ref` is the last one that was set, run or not.
pub record SearchBar : Type 0 where
  pub internal_value : Text
  pub timers : List (ℕ × Text)
  pub timer_ref : Option ℕ
  pub next_timer : ℕ

-- What the bar calls: `onChange` and `onSearch`.
pub data Signal : Type 0 where
  changed searched : Text → Signal

abbrev pub initial : Text → SearchBar
initial value = record { internal_value = value; timers = []; timer_ref = none; next_timer = 1 }

-- `clearTimeout`
abbrev pub clear_timer : ℕ → List (ℕ × Text) → List (ℕ × Text)
clear_timer id [] = []
clear_timer id ((n, q) ∷ ts) = if n == id then clear_timer id ts else (n, q) ∷ clear_timer id ts

abbrev pub clear_ref : Option ℕ → List (ℕ × Text) → List (ℕ × Text)
clear_ref none ts = ts
clear_ref (some id) ts = clear_timer id ts

-- A controlled bar shows its parent's value, and does not set its own.
unfoldable pub handle_change : Bool → Text → SearchBar → SearchBar × List Signal
handle_change is_controlled q s = (
  record s {
    internal_value = if is_controlled then s.internal_value else q;
    timers = clear_ref s.timer_ref s.timers ++ ((s.next_timer, q) ∷ []);
    timer_ref = some s.next_timer;
    next_timer = s.next_timer + 1;
  },
  changed q ∷ [],
)

unfoldable pub handle_clear : Bool → SearchBar → SearchBar × List Signal
handle_clear is_controlled s = (
  record s { internal_value = if is_controlled then s.internal_value else [] },
  changed [] ∷ searched [] ∷ [],
)

-- The pause of the oldest timer is over.
abbrev pub run_first : List (ℕ × Text) → SearchBar → SearchBar × List Signal
run_first [] s = (s, [])
run_first ((n, q) ∷ ts) s = (record s { timers = ts }, searched q ∷ [])

unfoldable pub run_timer : SearchBar → SearchBar × List Signal
run_timer s = run_first s.timers s

pub data BarEvent : Type 0 where
  change : Text → BarEvent
  clear run : BarEvent

unfoldable pub bar_step : Bool → SearchBar → BarEvent → SearchBar × List Signal
unfolding handle_change handle_clear run_timer
bar_step is_controlled s (change q) = handle_change is_controlled q s
bar_step is_controlled s clear = handle_clear is_controlled s
bar_step is_controlled s run = run_timer s

-- The signals of a sequence of events.
unfoldable pub bar_steps : Bool → SearchBar → List BarEvent → SearchBar × List Signal
unfolding bar_step
bar_steps is_controlled s [] = (s, [])
bar_steps is_controlled s (e ∷ es) =
    let (s', first) = bar_step is_controlled s e in
    let (s'', more) = bar_steps is_controlled s' es in (s'', first ++ more)
