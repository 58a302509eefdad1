-- ===== src/Reboot/BackOff/Delay.antt =====
-- How long a node waits after a failed drain.
use native.Mathlib.Nat.{pow-suc, add-zero, add-suc}
use cke.Prelude.{
  ℕ, zero, suc, ◌+◌, ◌-◌, ◌*◌, ◌%◌, ◌^◌, ◌≤◌, ◌<◌, min, ◌≡◌, refl, some, false, arith,
}
use cke.Cluster.{second}
use cke.Reboot.{queued, cancelled, RebootQueueEntry, status_eq}
use cke.Reboot.BackOff.{
  drain_back_off_base_seconds, drain_back_off_max_seconds, int64_mod, back_off_seconds,
  back_off_expire, drain_back_off, update,
}

pow_grows : (k d : ℕ) → 2 ^ k ≤ 2 ^ (k + d)
pow_grows k zero = rw add-zero (omega arith)
pow_grows k (suc d) = rw (add-suc, pow-suc) (omega (arith, pow_grows k d))

abbrev wanted_seconds : ℕ → ℕ
wanted_seconds k = min (2 ^ k * drain_back_off_base_seconds) drain_back_off_max_seconds

back_off_seconds_small : (k : ℕ) → k < 55 → back_off_seconds (k + 1) ≡ wanted_seconds k
unfolding back_off_seconds
back_off_seconds_small zero h = refl
back_off_seconds_small (suc zero) h = refl
back_off_seconds_small (suc (suc k)) h =
    let low : 4 ≤ 2 ^ (2 + k) = pow_grows 2 k in
    let high : 2 ^ (2 + k) ≤ 2 ^ (2 + k + (52 - k)) = pow_grows (2 + k) (52 - k) in
    let top : 2 + k + (52 - k) ≡ 54 = omega arith in
    let same : suc (suc k) ≡ 2 + k = omega arith in
    let count : 2 + k + 1 - 1 ≡ 2 + k = omega arith in
    let below : 2 ^ (2 + k) ≤ 2 ^ 54 = rw top at high in rw (same, count) (ground arith)

-- 300 is a multiple of 4, so a shift by 62 or more leaves no bit below 2 ^ 64.
shifted_out : (j : ℕ) → 2 ^ (62 + j) * 300 % int64_mod ≡ 0
shifted_out zero = refl
shifted_out (suc j) =
    let step : 2 ^ suc (62 + j) ≡ 2 ^ (62 + j) * 2 = pow-suc 2 (62 + j) in
    let shift : 62 + suc j ≡ suc (62 + j) = omega arith in
    rw (shift, step) (omega (arith, shifted_out j))

back_off_seconds_large : (j : ℕ) → back_off_seconds (62 + j + 1) ≡ 0
unfolding back_off_seconds
back_off_seconds_large j =
    let same : 62 + j + 1 - 1 ≡ 62 + j = omega arith in rw (same, shifted_out j) refl

expire-back_off :
    (now count r n : ℕ)
    → back_off_seconds count ≡ n
    → n ≤ 1200
    → r < 300
    → back_off_expire now count r ≡ now + (n + r) * second
unfolding back_off_expire
expire-back_off now count r n e small random = rw e (ground arith)

-- Where the stored entry is not cancelled, the drain has failed less than 55 times before and the
-- random number is below 300, the entry goes back to the queue with its failures counted, and
-- waits 300 seconds doubled for each earlier failure, 1200 at most, and the random number.
pub drain_back_off-doubles :
    (stored entry : RebootQueueEntry) (now r : ℕ)
    → status_eq stored.status cancelled ≡ false
    → entry.drain_backoff_count < 55
    → r < drain_back_off_base_seconds
    → drain_back_off (some stored) now r entry
      ≡ update (record entry {
        status = queued;
        last_transition_time = now;
        drain_backoff_count = entry.drain_backoff_count + 1;
        drain_backoff_expire =
            now
            + (min
                  (2 ^ entry.drain_backoff_count * drain_back_off_base_seconds)
                  drain_back_off_max_seconds
                + r)
              * second;
      })
unfolding drain_back_off
drain_back_off-doubles stored entry now r live few random = rw (
  live,
  expire-back_off now (entry.drain_backoff_count + 1) r _
      (back_off_seconds_small entry.drain_backoff_count few) (omega arith) random,
)

-- From 62 earlier failures on the shift leaves nothing of the 300 seconds: where the stored entry is
-- not cancelled, the entry waits for the random number of seconds alone.
pub drain_back_off-overflows :
    (stored entry : RebootQueueEntry) (now r j : ℕ)
    → status_eq stored.status cancelled ≡ false
    → entry.drain_backoff_count ≡ 62 + j
    → r < drain_back_off_base_seconds
    → drain_back_off (some stored) now r entry
      ≡ update (record entry {
        status = queued;
        last_transition_time = now;
        drain_backoff_count = 62 + j + 1;
        drain_backoff_expire = now + r * second;
      })
unfolding drain_back_off
drain_back_off-overflows stored entry now r j live many random =
    rw
      (
        live,
        many,
        expire-back_off now (62 + j + 1) r 0 (back_off_seconds_large j) (omega arith) random,
      )
      (ground arith)
