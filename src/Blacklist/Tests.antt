-- ===== src/Blacklist/Tests.antt =====
-- src/auto_blacklist.c: runs of the service, and the theorems at a concrete table. Times stand for
-- `struct timeval`; the table has 521 buckets and slots of 7200 seconds, as by default.
use tcp_proxy.Prelude.{ℕ, ◌/◌, ◌%◌, ◌≡◌, refl, List, [], ◌∷◌, Option, none, some, arith}
use tcp_proxy.Prelude.Int.{ℤ, pos, negsuc, ◌+ℤ◌, ◌-ℤ◌}
use tcp_proxy.Prelude.Table.{update}
use tcp_proxy.Blacklist.{
  IpAccessEntry, Blacklist, reserved_entry, clear_outdated_data, find_and_increase, expiring,
  new_auto_blacklist_service, current_time_index, clear_slot, clear_from, find_entry, write_entry,
  allocate_new_entry, reset_entry, open_slot, count_one, increase, for_each,
}
use tcp_proxy.Blacklist.Service.{Models, Counted, counted, new-Models, find_and_increase-Counted}
use tcp_proxy.Blacklist.Expiry.{Expired, expiring-Expired}

run_all : Unit {0}
unfolding current_time_index clear_slot clear_from clear_outdated_data find_entry write_entry
    allocate_new_entry reset_entry open_slot count_one increase find_and_increase expiring for_each
    new_auto_blacklist_service ◌+ℤ◌ ◌-ℤ◌
run_all = tt

abbrev start : Blacklist ℕ
start = new_auto_blacklist_service 521 86400

abbrev junk : IpAccessEntry ℕ
junk = record {
  ipaddr = 77;
  access_count = λ _. record { counter = 9; slot_index = negsuc 4 };
  counter = negsuc 2;
  success_counter = pos 1;
  log_time = 0;
}

-- 10.0.0.1 at 2022-04-15.
abbrev ip : ℕ
ip = 0x0a00_0001

abbrev t₀ : ℕ
t₀ = 1_650_000_000

abbrev calls :
    List ℕ → Option (Blacklist ℕ × IpAccessEntry ℕ) → Option (Blacklist ℕ × IpAccessEntry ℕ)
calls [] r = r
calls (now ∷ times) none = none
calls (now ∷ times) (some (b, e)) = calls times (find_and_increase b junk now now ip)

abbrev total : Option (Blacklist ℕ × IpAccessEntry ℕ) → Option ℤ
total none = none
total (some (b, e)) = some e.counter

-- Three accesses in one slot, one 12 slots later: the first three have left the window.
counts : total (calls (t₀ ∷ t₀ ∷ t₀ ∷ []) (some (start, junk))) ≡ some (pos 3)
unfolding run_all
counts = refl

forgets : total (calls (t₀ ∷ t₀ ∷ t₀ ∷ 1_650_086_400 ∷ []) (some (start, junk))) ≡ some (pos 1)
unfolding run_all
forgets = refl

fresh : Blacklist ℕ
unfolding new_auto_blacklist_service
fresh = start

fresh-Models : Models (λ _. []) 229166 fresh
unfolding fresh
fresh-Models = new-Models 521 86400 229166 (omega arith) (omega arith) (omega arith)

find_and_increase-Counted_lem :
    Counted (λ _. []) (t₀ / fresh.frequency_in_seconds) ip (find_and_increase fresh junk t₀ t₀ ip)
unfolding fresh
find_and_increase-Counted_lem =
    find_and_increase-Counted (λ _. []) 229166 fresh junk t₀ t₀ ip fresh-Models (omega arith)
      (omega arith)

find_and_increase-Counted_example :
    Counted (λ _. []) (t₀ / fresh.frequency_in_seconds) ip (find_and_increase fresh junk t₀ t₀ ip)
unfolding fresh
find_and_increase-Counted_example =
    find_and_increase-Counted (λ _. []) 229166 fresh junk t₀ t₀ ip fresh-Models (omega arith)
      (omega arith)

abbrev after : Option (Blacklist ℕ × IpAccessEntry ℕ) → Blacklist ℕ
after none = fresh
after (some (b, e)) = b

after-Models :
    {hist : ℕ → List ℕ} {slot q : ℕ} {r : Option (Blacklist ℕ × IpAccessEntry ℕ)}
    → Counted hist slot q r
    → Models (update hist q (slot ∷ hist q)) slot (after r)
after-Models (counted b' e' owner total m) = m

-- The table with one access, and a day and a slot later.
seen : Blacklist ℕ
unfolding fresh
seen = after (find_and_increase fresh junk t₀ t₀ ip)

seen-Models : Models (update (λ _. []) ip (229166 ∷ [])) 229166 seen
unfolding seen run_all
seen-Models = after-Models find_and_increase-Counted_lem

t₁ : ℕ
t₁ = 1_650_093_600

expiring-Expired_example :
    (b' : Blacklist ℕ) × (released : ℕ) × (expiring seen t₁ ≡ some (b', released))
    × Expired (update (λ _. []) ip (229166 ∷ [])) (t₁ / seen.frequency_in_seconds) seen b' released
    × (b'.recent_index ≡ pos (t₁ / seen.frequency_in_seconds % reserved_entry))
unfolding seen run_all t₁
expiring-Expired_example =
    expiring-Expired (update (λ _. []) ip (229166 ∷ [])) 229166 seen t₁ seen-Models (omega arith)
      (omega arith) (λ e. cc)
