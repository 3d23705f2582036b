-- ===== src/Tunnel/Loop.antt =====
-- `Start` and `run` of v4/tunnel.go: the goroutine that keeps an outbound tunnel connected, a step at
-- a time, with what the rest of the server does to the tunnel between its steps. Its own `dial` is one
-- step here; Tunnel.Events has it in two.
pub mod Redials
pub mod Failures
use tlswrapper.Base.{
  ℕ, is_empty, not, ◌&&◌, if◌then◌else◌, Bool, true, false, Option, none, some, List, [], ◌∷◌,
}
use tlswrapper.Tunnel.{Tunnel, World, close_if_open}
use tlswrapper.Tunnel.Redial.{Spawns, maintenance, schedule}
use tlswrapper.Tunnel.Events.{Event, step}

-- `maintaining` is before `t.maintenance()`, `selecting d` is in the `select`, with a timer that runs
-- for `d` if there is one.
pub data Loop : Type 0 where
  maintaining : Loop
  selecting : (timer : Option ℕ) → Loop
  returned : Loop

-- `Start`; `go` is whether the goroutine group takes `run`.
unfoldable pub start : Bool → Tunnel → Loop
start go t = if not (is_empty t.dial_addr) && go then maintaining else returned

-- What a round meets: the configuration, the context manager, the network, the group and the draw.
pub record Answers : Type 0 where
  pub no_redial : Bool
  pub has_ctx : Bool
  pub answer : Option ℕ
  pub go : Spawns
  pub draw : ℕ

-- From the head of the loop into the `select`.
unfoldable pub enter : ℕ → Answers → Tunnel → World → Loop × Tunnel × World
enter now a t w =
    let (t', w') = maintenance now a.no_redial a.has_ctx a.answer a.go t w in
    (selecting (schedule a.no_redial a.draw t'), t', w')

-- The cases of the `select`.
pub data Wake : Type 0 where
  close_signal redial_signal timer_fires group_closes : Wake

-- The deferred function of `run`.
unfoldable pub return_run : Tunnel → World → Loop × Tunnel × World
return_run t w = (returned, t, close_if_open t.ss w)

unfoldable pub select : Wake → Option ℕ → Tunnel → World → Loop × Tunnel × World
select close_signal d t w = if t.closed_sig then return_run t w else (selecting d, t, w)
select redial_signal d t w =
    if t.redial_sig then (maintaining, record t { redial_sig = false }, w) else (selecting d, t, w)
select timer_fires none t w = (selecting none, t, w)
select timer_fires (some d) t w = (maintaining, t, w)
select group_closes d t w = return_run t w

-- A step of the goroutine, or an event from outside.
pub data Act : Type 0 where
  enters : (now : ℕ) (a : Answers) → Act
  selects : Wake → Act
  outside : Event → Act

unfoldable pub act : Act → Loop × Tunnel × World → Loop × Tunnel × World
act (enters now a) (maintaining, t, w) = enter now a t w
act (enters now a) (selecting d, t, w) = (selecting d, t, w)
act (enters now a) (returned, t, w) = (returned, t, w)
act (selects k) (maintaining, t, w) = (maintaining, t, w)
act (selects k) (selecting d, t, w) = select k d t w
act (selects k) (returned, t, w) = (returned, t, w)
act (outside e) (p, t, w) = let (t', w') = step e t w in (p, t', w')

unfoldable pub loop : List Act → Loop × Tunnel × World → Loop × Tunnel × World
loop [] s = s
loop (a ∷ rest) s = loop rest (act a s)
