-- ===== src/Outbound/Group/Tests.antt =====
-- The groups over three proxies, of which the second connects, and the theorems at inputs.
use home_guard.Prelude.{
  ℕ, arith, Option, ◌≡◌, ◌⊎◌, refl, true, false, none, some, [], ◌∷◌, nat_eq, ◌==◌, if◌then◌else◌,
}
use home_guard.Prelude.Text.{bytes}
use home_guard.Outbound.Address.{Address, domain}
use home_guard.Outbound.Group.{Outbound}
use home_guard.Outbound.Group.Select
use home_guard.Outbound.Group.Select.{select_by_name-current_name}
use home_guard.Outbound.Group.UrlTest
use home_guard.Outbound.Group.UrlTest.Best.{IsFastest, connect-IsFastest}
use home_guard.Outbound.Group.Fallback
use home_guard.Outbound.Group.Fallback.{connect-first_available}

-- A proxy is a number, its stream the same number.
abbrev three : Outbound
three = record {
  Proxy = ℕ;
  Stream = ℕ;
  name = λ n. n ∷ [];
  connect = λ n target. if n == 2 then some n else none;
  is_healthy = λ n. if n == 1 then false else true;
}

abbrev target : Address
target = domain (bytes "example.com") 443

abbrev manual : Select.SelectGroup three
manual = Select.new three (bytes "manual") (1 ∷ 2 ∷ 3 ∷ [])

abbrev fallback : Fallback.FallbackGroup three
fallback = Fallback.new three (bytes "auto") (1 ∷ 2 ∷ 3 ∷ []) (bytes "http://a") 300

program : Unit {0}
unfolding Select.new Select.current Select.current_name Select.select Select.position
    Select.select_by_name Select.connect Fallback.new Fallback.first_of Fallback.first_available
    Fallback.is_due Fallback.needs_check Fallback.mark_unavailable Fallback.check_all
    Fallback.try_each Fallback.checked Fallback.connect
program = tt

runs :
    (Select.connect three target (Select.select_by_name three (2 ∷ []) manual).0 ≡ some 2)
    × (Select.connect three target manual ≡ none)
    × ((Select.select three 3 manual).1 ≡ false)
    × ((Fallback.connect three 0 target fallback).0 ≡ some 2)
    × (Fallback.first_available three (Fallback.mark_unavailable three 0 fallback) ≡ some 2)
unfolding program
runs = (refl, refl, refl, refl, refl)

connect-first_available_example :
    ((s : ℕ) × ((Fallback.connect three 0 target fallback).0 ≡ some s)
      × ((p : ℕ) × (Fallback.first_available three (Fallback.connect three 0 target fallback).1
            ≡ some p)
          × (three.connect p target ≡ some s)))
    ⊎ (((Fallback.connect three 0 target fallback).0 ≡ none)
        × (Fallback.first_available three (Fallback.connect three 0 target fallback).1 ≡ none)
        × Fallback.AllFail three target
            (Fallback.checked three 0 fallback).proxies
            (Fallback.checked three 0 fallback).available)
connect-first_available_example = connect-first_available three 0 target fallback

abbrev fastest : UrlTest.UrlTestGroup three
fastest = UrlTest.new three (bytes "fast") (1 ∷ 2 ∷ 3 ∷ []) (bytes "http://a") 300

-- The first proxy does not answer, and the third one is slower than the second.
abbrev latency : ℕ → Option ℕ
latency n = if n == 1 then none else some n

due : UrlTest.needs_test three 0 fastest ≡ true
unfolding UrlTest.needs_test UrlTest.new
due = refl

connect-IsFastest_example :
    (p : ℕ) × (l : ℕ) × IsFastest three latency (1 ∷ 2 ∷ 3 ∷ []) p l
    × ((UrlTest.connect three latency 0 target fastest).0 ≡ three.connect p target)
unfolding UrlTest.new
connect-IsFastest_example =
    connect-IsFastest three latency 0 target fastest 3 3 2 due refl refl (omega arith)
