-- ===== src/Cdp/Wait.antt =====
-- The wait of internal/cdp/cdp.go for the debug port ends.
use browser_analysis.Prelude.{
  ℕ, zero, suc, ◌+◌, ◌*◌, ◌≤◌, ◌≡◌, refl, ap, ◌≢◌, Bool, true, false, Option, none, some, arith,
  ltb,
}
use browser_analysis.Cdp.{Host, Waited, out_of_fuel, port_of, round, poll, wait_for_port}

-- Time does not go back, and a sleep takes its time.
pub record IsTimed {W : Type 0} (h : Host W) : Type 0 where
  pub reads : (w : W) → h.now w ≤ h.now (h.read_line w).1
  pub sleeps : (t : ℕ) (w : W) → h.now w + t ≤ h.now (h.sleep t w)

not_before : (a b : ℕ) → b ≤ a → ltb a b ≡ false
not_before a b h = ground arith

round_ends :
    {W : Type 0} (before : Bool) (port : Option ℕ) (running : Bool) (w w' : W) (later : Waited × W)
    → later.0 ≢ out_of_fuel
    → (round before port running w w' later).0 ≢ out_of_fuel
unfolding round
round_ends false port running w w' later h = λ e. cc
round_ends true (some port) running w w' later h = λ e. cc
round_ends true none false w w' later h = λ e. cc
round_ends true none true w w' later h = h

module _ {W : Type 0} (h : Host W) (timed : IsTimed h) where
  poll_ends :
      (n m deadline : ℕ) (w : W)
      → n ≤ m
      → deadline ≤ h.now w + n * 100
      → ((poll h (suc n) deadline w).0 ≢ out_of_fuel)
        × (poll h (suc m) deadline w ≡ poll h (suc n) deadline w)
  unfolding poll round
  poll_ends zero m deadline w more late =
      rw (not_before (h.now w) deadline (omega (arith, late))) ((λ e. cc), refl)
  poll_ends (suc n) zero deadline w more late = absurd (omega (arith, more))
  poll_ends (suc n) (suc m) deadline w more late =
      let (line, w') = h.read_line w in
      let (ends, same) =
        poll_ends n m deadline (h.sleep 100 w') (omega (arith, more))
          (omega (arith, late, timed.reads w, timed.sleeps 100 w')) in
      (
        round_ends (ltb (h.now w) deadline) (port_of h line) (h.running w') w w' _ ends,
        ap (round (ltb (h.now w) deadline) (port_of h line) (h.running w') w w') same,
      )

  -- Where time does not go back and a sleep takes its time, `waitForPort` returns: with the fuel given
  -- the wait ends, and more fuel does not change its result.
  pub wait_for_port_returns :
      (w : W) (m : ℕ)
      → 300 ≤ m
      → ((wait_for_port h w).0 ≢ out_of_fuel)
        × (poll h (suc m) (h.now w + 30_000) w ≡ wait_for_port h w)
  unfolding wait_for_port
  wait_for_port_returns w m more = poll_ends 300 m (h.now w + 30_000) w more (omega arith)
