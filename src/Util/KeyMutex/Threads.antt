-- ===== src/Util/KeyMutex/Threads.antt =====
-- Requests that run in threads and hold a key from a successful `TryLock` to their `Unlock`, in
-- any interleaving.
use baiducloud_cce_csi_drive.Base.{
  ℕ, ◌+◌, ◌≤◌, String, Bool, true, false, ◌&&◌, Option, none, some, List, [], ◌∷◌, ◌≡◌, refl, arith,
  eqb, ◌==◌, eq_iff, contains, contains-remove, Option-cases, inl, inr, if◌then◌else◌,
}
use baiducloud_cce_csi_drive.Util.KeyMutex.{KeyMutex, new_key_mutex, try_lock, unlock}

-- The mutex, and the requests in process: a thread with the key that it holds.
pub record System : Type 0 where
  pub mutex : KeyMutex
  pub running : List (ℕ × String)

abbrev pub one_if : Bool → ℕ
one_if true = 1
one_if false = 0

-- How many requests in process hold the key.
unfoldable pub holders : String → List (ℕ × String) → ℕ
holders key [] = 0
holders key ((t, j) ∷ rs) = one_if (j == key) + holders key rs

unfoldable pub finish : ℕ → String → List (ℕ × String) → Option (List (ℕ × String))
finish t key [] = none
finish t key ((u, j) ∷ rs) =
    let later = finish t key rs in
    if eqb t u && j == key
    then some rs
    else elim later [ none ↦ none | some rest ↦ some ((u, j) ∷ rest) ]

pub data Step : System → System → Type 0 where
  locked :
      (s : System) (t : ℕ) (key : String) (m : KeyMutex)
      → try_lock key s.mutex ≡ (true, m)
      → Step s (record { mutex = m; running = (t, key) ∷ s.running })
  refused :
      (s : System) (key : String) (m : KeyMutex)
      → try_lock key s.mutex ≡ (false, m)
      → Step s (record s { mutex = m })
  unlocked :
      (s : System) (t : ℕ) (key : String) (rest : List (ℕ × String))
      → finish t key s.running ≡ some rest
      → Step s (record { mutex = unlock key s.mutex; running = rest })

pub data Reach (s : System) : System → Type 0 where
  here : Reach s s
  next : {t u : System} → Reach s t → Step t u → Reach s u

abbrev pub idle : System
idle = record { mutex = new_key_mutex; running = [] }

record IsExact (s : System) : Type 0 where
  at_key : (key : String) → holders key s.running ≡ one_if (contains key s.mutex.kv)

holders-finish :
    (t : ℕ) (key j : String) (rs : List (ℕ × String)) {rest : List (ℕ × String)}
    → finish t key rs ≡ some rest
    → holders j rs ≡ one_if (key == j) + holders j rest
unfolding finish holders
holders-finish t key j [] h = ground arith
holders-finish t key j ((u, i) ∷ rs) h = elim (Option-cases (finish t key rs)) [
  | inl e ↦ ground (arith, e, eq_iff i key)
  | inr (r, e) ↦ ground (arith, e, eq_iff i key, holders-finish t key j rs e)
]

Step-IsExact : {s u : System} → Step s u → IsExact s → IsExact u
unfolding try_lock unlock holders contains
Step-IsExact (locked s t key m e) v = record {
  at_key = λ j. ground (arith, v.at_key j, v.at_key key, eq_iff key j);
}
Step-IsExact (refused s key m e) v = record { at_key = λ j. ground (arith, v.at_key j) }
Step-IsExact (unlocked s t key rest e) v = record {
  at_key = λ j. ground (
    arith,
    v.at_key j,
    v.at_key key,
    holders-finish t key j s.running e,
    eq_iff key j,
    contains-remove key j s.mutex.kv,
  );
}

Reach-IsExact : {s u : System} → Reach s u → IsExact s → IsExact u
Reach-IsExact here v = v
Reach-IsExact (next r st) v = Step-IsExact st (Reach-IsExact r v)

idle-IsExact : IsExact idle
unfolding holders contains new_key_mutex
idle-IsExact = record { at_key = λ key. refl }

-- In every interleaving of locking, refused and unlocking requests from an idle mutex, at most one
-- request in process holds a key, and the mutex has the key locked exactly while one does.
pub mutual_exclusion :
    {s : System} (key : String)
    → Reach idle s
    → (holders key s.running ≤ 1) × (holders key s.running ≡ one_if (contains key s.mutex.kv))
mutual_exclusion {s} key r =
    let e = (Reach-IsExact r idle-IsExact).at_key key in (ground (arith, e), e)
