-- ===== src/StartupTests.antt =====
-- Start-up programs of lib/shell/__init__.c, from a concrete registry.
use cereja.Prelude.{
  ℕ, ◌≡◌, ◌≢◌, true, none, some, List, [], ◌∷◌, refl, arith, get_elem?, ◌>>=◌, ◌==◌, if◌then◌else◌,
  drop,
}
use cereja.Startup.{
  Windows, World, Key, RegValue, Call, delete_value, machine_run_once, machine_run, user_run,
  user_run_once, delete_loop, folder_search, shell_run_startup_programs,
}
use cereja.Startup.Registry.{Documented, if_fits, readable}
use cereja.Startup.Runs.{delete_loop-sticks}
use cereja.Startup.Order.{shell_run_startup_programs-ends}

abbrev key_number : Key → ℕ
key_number machine_run_once = 0
key_number machine_run = 1
key_number user_run = 2
key_number user_run_once = 3

abbrev after : Call → (Key → List RegValue) → Key → List RegValue
after (delete_value k name) s other =
    if key_number k == key_number other then drop 1 (s other) else s other
after _ s other = s other

-- A registry that is a list of values for each key; each folder is "a\" and empty.
abbrev windows : Windows
windows = record {
  State = Key → List RegValue;
  open_key = λ s k. true;
  enum_value = λ s k i count data_count. get_elem? (s k) i >>= if_fits count data_count;
  folder_path = λ s f. some (b'a' ∷ b'\\' ∷ []);
  find_files = λ s p. [];
  after = after;
}

deleted :
    (s : Key → List RegValue) (k : Key) (v : RegValue) (vs : List RegValue)
    → s k ≡ v ∷ vs
    → after (delete_value k v.name) s k ≡ vs
deleted s machine_run_once v vs e = rw e refl
deleted s machine_run v vs e = rw e refl
deleted s user_run v vs e = rw e refl
deleted s user_run_once v vs e = rw e refl

kept :
    (s : Key → List RegValue) (k : Key) (name : List ℕ) (other : Key)
    → k ≢ other
    → after (delete_value k name) s other ≡ s other
kept s machine_run_once name machine_run_once apart = absurd (apart refl)
kept s machine_run name machine_run apart = absurd (apart refl)
kept s user_run name user_run apart = absurd (apart refl)
kept s user_run_once name user_run_once apart = absurd (apart refl)
kept s _ name _ apart = refl

abbrev documented : Documented windows
documented = record {
  values = λ s k. s k;
  enum = λ s k i count data_count. refl;
  spawned = λ s path wait k. refl;
  executed = λ s file directory k. refl;
  deleted = deleted;
  kept = kept;
}

abbrev setup : RegValue
setup = record { name = b's' ∷ []; type = 1; data_text = b'x' ∷ []; data_size = 4 }

abbrev number_value : RegValue
number_value = record { name = b'n' ∷ []; type = 4; data_text = []; data_size = 4 }

-- Each key has one value.
abbrev before : World windows
before = record { state = λ k. setup ∷ []; calls = [] }

shell_run_startup_programs-ends_example :
    (t : World windows) × (shell_run_startup_programs windows 2 before ≡ some t)
    × (t.state machine_run_once ≡ [])
    × (t.state user_run_once ≡ [])
shell_run_startup_programs-ends_example =
    shell_run_startup_programs-ends windows documented 2 before (λ s k. refl)
      (λ s f. (b'a', b'\\' ∷ [], refl)) refl refl (λ k. omega arith)

-- Its data have no room in MAX_PATH characters.
abbrev long_data : RegValue
long_data = record setup { data_size = 600 }

abbrev with_long_data : World windows
with_long_data = record { state = λ k. setup ∷ long_data ∷ setup ∷ []; calls = [] }

-- Only the first program is started.
one_readable : readable (setup ∷ long_data ∷ setup ∷ []) ≡ setup ∷ []
one_readable = refl

abbrev with_number : World windows
with_number = record { state = λ k. number_value ∷ []; calls = [] }

delete_loop-sticks_example : delete_loop windows 9 user_run_once with_number ≡ none
delete_loop-sticks_example =
    delete_loop-sticks windows documented user_run_once number_value [] 9 with_number refl refl refl

separator_at_end :
    folder_search (b'a' ∷ b'\\' ∷ []) ≡ some (b'a' ∷ b'\\' ∷ b'*' ∷ b'.' ∷ b'*' ∷ [], b'a' ∷ [])
unfolding folder_search
separator_at_end = refl
