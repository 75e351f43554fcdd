-- ===== src/Retention/Bounds.antt =====
-- The durations that the code computes in int64 do not overflow for the hours that a request may ask for and
-- the days that a configuration may hold.
use cairnobs.Agents.Override.{out_of_range}
use cairnobs.Base.{ℕ, suc, ◌-◌, ◌*◌, ◌^◌, ◌<◌, ◌≤◌, ◌≢◌, false, ◌≡◌, arith}
use cairnobs.Base.Int.{ℤ, pos, negsuc, ◌+ℤ◌, neg, scale, wrap_int64, +ℤ_parts, eq_of_parts}
use cairnobs.Retention.Floors.{hour_ns, boundary}
use cairnobs.Retention.Handlers.{hours_refused, Env, cutoff_of}

wrap_int64-negsuc : (m : ℕ) → m < 2 ^ 63 → wrap_int64 (negsuc m) ≡ negsuc m
unfolding wrap_int64
wrap_int64-negsuc m h = ground (arith, h)

goes_back : (now : ℤ) (m : ℕ) → m < 2 ^ 63 → (now +ℤ wrap_int64 (negsuc m)) +ℤ pos (suc m) ≡ now
goes_back now m h = rw (wrap_int64-negsuc m h) (
    eq_of_parts _ now
      (ground (arith, +ℤ_parts now (negsuc m), +ℤ_parts (now +ℤ negsuc m) (pos (suc m)))))

module _ (k n : ℕ) (h : 1 ≤ k * n) (z : n ≢ 0) where
  scale-neg : scale k (neg (pos n)) ≡ negsuc (k * n - 1)
  scale-neg = ground (arith, h, z)

  scale-pos : scale k (pos n) ≡ pos (suc (k * n - 1))
  scale-pos = ground (arith, h)

  -- k times the negative of n goes back by k times n.
  goes_back_by :
      (now : ℤ)
      → k * n ≤ 2 ^ 63
      → (now +ℤ wrap_int64 (scale k (neg (pos n)))) +ℤ scale k (pos n) ≡ now
  goes_back_by now b = rw (scale-neg, scale-pos) (goes_back now (k * n - 1) (omega (arith, h, b)))

pub cutoff_of-hours :
    (env : Env) (hours : ℤ)
    → hours_refused hours ≡ false
    → cutoff_of env hours +ℤ scale hour_ns hours ≡ env.now
cutoff_of-hours env (negsuc n) h = absurd (ground (arith, h))
cutoff_of-hours env (pos n) h =
    goes_back_by hour_ns n (ground (arith, h)) (ground (arith, h)) env.now (ground (arith, h))

pub boundary-days :
    (now days : ℤ)
    → out_of_range days ≡ false
    → boundary now days +ℤ scale (24 * hour_ns) days ≡ now
boundary-days now (negsuc n) h = absurd (ground (arith, h))
boundary-days now (pos n) h =
    goes_back_by (24 * hour_ns) n (ground (arith, h)) (ground (arith, h)) now (ground (arith, h))

-- For hours that a request may ask for and days that a configuration may hold, the int64 arithmetic does
-- not wrap: the cutoff lies those hours, and the boundary of the floor those days, before its time.
pub durations-exact :
    (env : Env) (hours days : ℤ)
    → hours_refused hours ≡ false
    → out_of_range days ≡ false
    → (cutoff_of env hours +ℤ scale hour_ns hours ≡ env.now)
      × (boundary env.floor_now days +ℤ scale (24 * hour_ns) days ≡ env.floor_now)
durations-exact env hours days h d =
    (cutoff_of-hours env hours h, boundary-days env.floor_now days d)
