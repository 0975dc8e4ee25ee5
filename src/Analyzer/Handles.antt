-- ===== src/Analyzer/Handles.antt =====
-- src/packet_analyzer.c: the connections hold data of the plugin. The calls as a step relation on the
-- state and the number of data that are held.
use tcp_proxy.Prelude.{
  ℕ, suc, ◌<◌, ◌≡◌, inl, inr, Bool, true, Option, none, some, arith, Bool-cases,
}
use tcp_proxy.Prelude.Int.{pos, ◌+ℤ◌, ◌-ℤ◌}
use tcp_proxy.Analyzer.{
  Analyzer, is_loaded, module_loader, module_unload, set_enable, set_safe_mode, analyzer_allocate,
  analyzer_release, analyze_packet,
}

-- One call, with the numbers of data that the connections hold before and after it. A connection
-- releases what it was given, once.
pub data Step : Analyzer → ℕ → Analyzer → ℕ → Type 0 where
  load :
      (a : Analyzer) (n : ℕ) (opened : Bool) (symbol : Option ℕ)
      → Step a n (module_loader a opened symbol).0 n
  unload : (a : Analyzer) (n : ℕ) (closed : Bool) → Step a n (module_unload a closed).0 n
  enable : (a : Analyzer) (n : ℕ) (on_off : Bool) → Step a n (set_enable a on_off).0 n
  safety : (a : Analyzer) (n : ℕ) (on_off : Bool) → Step a n (set_safe_mode a on_off) n
  allocated :
      (a : Analyzer) (n d : ℕ) (data' : Option ℕ)
      → (analyzer_allocate a data').1 ≡ some d
      → Step a n (analyzer_allocate a data').0 (suc n)
  not_allocated :
      (a : Analyzer) (n : ℕ) (data' : Option ℕ)
      → (analyzer_allocate a data').1 ≡ none
      → Step a n (analyzer_allocate a data').0 n
  release :
      (a : Analyzer) (n d : ℕ) (closed : Bool)
      → Step a (suc n) (analyzer_release a closed (some d)) n
  analyze :
      (a : Analyzer) (n : ℕ) (data' answer : Option ℕ)
      → Step a n (analyze_packet a data' answer).0 n

-- Any number of calls.
pub data Steps : Analyzer → ℕ → Analyzer → ℕ → Type 0 where
  none_left : (a : Analyzer) (n : ℕ) → Steps a n a n
  then_ : (a b c : Analyzer) (n m k : ℕ) → Step a n b m → Steps b m c k → Steps a n c k

-- The count is right, and the plugin stays while data of it is held.
pub record IsCounted (a : Analyzer) (n : ℕ) : Type 0 where
  pub counted : a.reference_count ≡ pos n
  pub kept : 0 < n → is_loaded a ≡ true

load-IsCounted :
    (a : Analyzer) (n : ℕ) (opened : Bool) (symbol : Option ℕ)
    → IsCounted a n
    → IsCounted (module_loader a opened symbol).0 n
unfolding module_loader
load-IsCounted a n opened symbol c = elim (Bool-cases (is_loaded a)) [
  | inl e ↦ record { counted = ground (arith, e, c.counted); kept = λ held. ground (arith, e) }
  | inr e ↦ record {
    counted = ground (arith, e, c.counted);
    kept = λ held. absurd (ground (arith, e, c.kept held));
  }
]

unload-IsCounted :
    (a : Analyzer) (n : ℕ) (closed : Bool) → IsCounted a n → IsCounted (module_unload a closed).0 n
unfolding module_unload is_loaded
unload-IsCounted a n closed c = record {
  counted = ground (arith, c.counted);
  kept = λ held. ground (arith, c.counted, c.kept held);
}

enable-IsCounted :
    (a : Analyzer) (n : ℕ) (on_off : Bool) → IsCounted a n → IsCounted (set_enable a on_off).0 n
unfolding set_enable is_loaded
enable-IsCounted a n on_off c = record { counted = c.counted; kept = c.kept }

safety-IsCounted :
    (a : Analyzer) (n : ℕ) (on_off : Bool) → IsCounted a n → IsCounted (set_safe_mode a on_off) n
unfolding set_safe_mode is_loaded
safety-IsCounted a n on_off c = record { counted = c.counted; kept = c.kept }

allocate-IsCounted :
    (a : Analyzer) (n d : ℕ) (data' : Option ℕ)
    → (analyzer_allocate a data').1 ≡ some d
    → IsCounted a n
    → IsCounted (analyzer_allocate a data').0 (suc n)
unfolding analyzer_allocate is_loaded ◌+ℤ◌
allocate-IsCounted a n d data' e c = record {
  counted = ground (arith, e, c.counted);
  kept = λ held. ground (arith, e);
}

not_allocated-IsCounted :
    (a : Analyzer) (n : ℕ) (data' : Option ℕ)
    → (analyzer_allocate a data').1 ≡ none
    → IsCounted a n
    → IsCounted (analyzer_allocate a data').0 n
unfolding analyzer_allocate is_loaded
not_allocated-IsCounted a n data' e c = record {
  counted = ground (arith, e, c.counted);
  kept = λ held. ground (arith, e, c.kept held);
}

release-IsCounted :
    (a : Analyzer) (n d : ℕ) (closed : Bool)
    → IsCounted a (suc n)
    → IsCounted (analyzer_release a closed (some d)) n
unfolding analyzer_release module_unload is_loaded ◌-ℤ◌
release-IsCounted a n d closed c =
    let loaded = c.kept (omega arith) in
    record {
      counted = ground (arith, c.counted, loaded);
      kept = λ held. ground (arith, c.counted, loaded);
    }

analyze-IsCounted :
    (a : Analyzer) (n : ℕ) (data' answer : Option ℕ)
    → IsCounted a n
    → IsCounted (analyze_packet a data' answer).0 n
unfolding analyze_packet is_loaded
analyze-IsCounted a n data' answer c = record {
  counted = ground (arith, c.counted);
  kept = λ held. ground (arith, c.kept held);
}

Step-IsCounted : (a b : Analyzer) (n m : ℕ) → Step a n b m → IsCounted a n → IsCounted b m
Step-IsCounted _ _ _ _ (load a n opened symbol) c = load-IsCounted a n opened symbol c
Step-IsCounted _ _ _ _ (unload a n closed) c = unload-IsCounted a n closed c
Step-IsCounted _ _ _ _ (enable a n on_off) c = enable-IsCounted a n on_off c
Step-IsCounted _ _ _ _ (safety a n on_off) c = safety-IsCounted a n on_off c
Step-IsCounted _ _ _ _ (allocated a n d data' e) c = allocate-IsCounted a n d data' e c
Step-IsCounted _ _ _ _ (not_allocated a n data' e) c = not_allocated-IsCounted a n data' e c
Step-IsCounted _ _ _ _ (release a n d closed) c = release-IsCounted a n d closed c
Step-IsCounted _ _ _ _ (analyze a n data' answer) c = analyze-IsCounted a n data' answer c

-- If the reference count is the number of data of the plugin that the connections hold, and the
-- plugin is loaded while there is one, then so it is after any sequence of loading, unloading,
-- enabling, changing the mode, allocating, releasing what is held, and analyzing, whatever the
-- plugin and the dynamic linker answer.
pub Steps-IsCounted : (a b : Analyzer) (n m : ℕ) → IsCounted a n → Steps a n b m → IsCounted b m
Steps-IsCounted _ _ _ _ c (none_left a n) = c
Steps-IsCounted _ _ _ _ c (then_ a b d n m k s rest) =
    Steps-IsCounted b d m k (Step-IsCounted a b n m s c) rest
