-- ===== src/Store/Listing/Scans.antt =====
-- internal/store/store.go: the loop that scans the rows, on the front and on the rest of a list.
use go_task_q.Models.{Job}
use go_task_q.Store.Rows.{StoreError, Result, ok, err, NullText, scan_job, ◌>>=◌, eq_of_ok}
use go_task_q.Store.Table.{Db}
use go_task_q.Store.Listing.{scan_jobs}
use go_task_q.Base.{
  ◌∙◌, zero, ap, arith, ◌-◌, [], ◌∷◌, ◌≤◌, suc, ◌++◌, drop, subst, length, refl, take, ℕ, ◌≡◌, List,
}

pub take-drop {ℓ} : {A : Type ℓ} (n : ℕ) (xs : List A) → take n xs ++ drop n xs ≡ xs
take-drop zero xs = refl
take-drop (suc n) [] = refl
take-drop (suc n) (x ∷ xs) = ap (λ s. x ∷ s) (take-drop n xs)

pub take-all {ℓ} : {A : Type ℓ} (n : ℕ) (xs : List A) → length xs ≤ n → take n xs ≡ xs
take-all zero [] h = refl
take-all zero (x ∷ xs) h = absurd (omega (arith, h))
take-all (suc n) [] h = refl
take-all (suc n) (x ∷ xs) h = ap (λ s. x ∷ s) (take-all n xs (omega (arith, h)))

pub length-drop-le {ℓ} : {A : Type ℓ} (n : ℕ) (xs : List A) → length (drop n xs) ≤ length xs - n
length-drop-le zero xs = omega arith
length-drop-le (suc n) [] = omega arith
length-drop-le (suc n) (x ∷ xs) = omega (arith, length-drop-le n xs)

pub take-take {ℓ} : {A : Type ℓ} (n : ℕ) (xs : List A) → take n (take (suc n) xs) ≡ take n xs
take-take zero xs = refl
take-take (suc n) [] = refl
take-take (suc n) (x ∷ xs) = ap (λ s. x ∷ s) (take-take n xs)

bind-ok {ℓ κ} :
    {A : Type ℓ} {B : Type κ} (m : Result A) (f : A → Result B) {b : B}
    → m >>= f ≡ ok b
    → (a : A) × (m ≡ ok a) × (f a ≡ ok b)
bind-ok (ok a) f h = (a, refl, h)
bind-ok (err e) f h = cc

-- The jobs that the rows scan to, first to last.
abbrev pub Scans : NullText → Db → List Job → Type 0
Scans null_text [] [] = Unit
Scans null_text (r ∷ rows) (job ∷ jobs) =
    (scan_job null_text r ≡ ok job) × Scans null_text rows jobs
Scans null_text _ _ = ⊥

pub Scans-ok :
    (null_text : NullText) (rows : Db) (jobs : List Job)
    → Scans null_text rows jobs
    → scan_jobs null_text rows ≡ ok jobs
unfolding scan_jobs
Scans-ok null_text [] [] h = refl
Scans-ok null_text [] (j ∷ jobs) h = absurd h
Scans-ok null_text (r ∷ rows) [] h = absurd h
Scans-ok null_text (r ∷ rows) (j ∷ jobs) (e, h) = rw (e, Scans-ok null_text rows jobs h) refl

pub scan_jobs-Scans :
    (null_text : NullText) (rows : Db) (jobs : List Job)
    → scan_jobs null_text rows ≡ ok jobs
    → Scans null_text rows jobs
unfolding scan_jobs
scan_jobs-Scans null_text [] jobs h = subst (Scans null_text []) (eq_of_ok h) tt
scan_jobs-Scans null_text (r ∷ rows) jobs h =
    let (job, e, next) = bind-ok (scan_job null_text r) _ h in
    let (rest, es, made) = bind-ok (scan_jobs null_text rows) _ next in
    subst (Scans null_text (r ∷ rows)) (eq_of_ok made) (e, scan_jobs-Scans null_text rows rest es)

pub Scans-take :
    (null_text : NullText) (n : ℕ) (rows : Db) (jobs : List Job)
    → Scans null_text rows jobs
    → Scans null_text (take n rows) (take n jobs)
Scans-take null_text zero rows jobs h = tt
Scans-take null_text (suc n) [] [] h = tt
Scans-take null_text (suc n) [] (j ∷ jobs) h = absurd h
Scans-take null_text (suc n) (r ∷ rows) [] h = absurd h
Scans-take null_text (suc n) (r ∷ rows) (j ∷ jobs) (e, h) = (e, Scans-take null_text n rows jobs h)

pub Scans-drop :
    (null_text : NullText) (n : ℕ) (rows : Db) (jobs : List Job)
    → Scans null_text rows jobs
    → Scans null_text (drop n rows) (drop n jobs)
Scans-drop null_text zero rows jobs h = h
Scans-drop null_text (suc n) [] [] h = tt
Scans-drop null_text (suc n) [] (j ∷ jobs) h = absurd h
Scans-drop null_text (suc n) (r ∷ rows) [] h = absurd h
Scans-drop null_text (suc n) (r ∷ rows) (j ∷ jobs) (e, h) = Scans-drop null_text n rows jobs h

pub Scans-length :
    (null_text : NullText) (rows : Db) (jobs : List Job)
    → Scans null_text rows jobs
    → length jobs ≡ length rows
Scans-length null_text [] [] h = refl
Scans-length null_text [] (j ∷ jobs) h = absurd h
Scans-length null_text (r ∷ rows) [] h = absurd h
Scans-length null_text (r ∷ rows) (j ∷ jobs) (e, h) = ap suc (Scans-length null_text rows jobs h)

-- An error in front is the error of the whole list.
err-cons :
    (o : Result Job) (a b : Result (List Job)) (e : StoreError)
    → ((x : StoreError) → a ≡ err x → b ≡ err x)
    → (o >>= λ job. a >>= λ jobs. ok (job ∷ jobs)) ≡ err e
    → (o >>= λ job. b >>= λ jobs. ok (job ∷ jobs)) ≡ err e
err-cons (err x) a b e k h = h
err-cons (ok job) (err y) b e k h = ap (λ c. c >>= λ jobs. ok (job ∷ jobs)) (k y refl) ∙ h
err-cons (ok job) (ok jobs) b e k h = cc

pub scan_jobs-err :
    (null_text : NullText) (n : ℕ) (rows : Db) (e : StoreError)
    → scan_jobs null_text (take n rows) ≡ err e
    → scan_jobs null_text rows ≡ err e
unfolding scan_jobs
scan_jobs-err null_text zero rows e h = cc
scan_jobs-err null_text (suc n) [] e h = cc
scan_jobs-err null_text (suc n) (r ∷ rows) e h =
    err-cons (scan_job null_text r) (scan_jobs null_text (take n rows)) (scan_jobs null_text rows) e
      (λ x k. scan_jobs-err null_text n rows x k) h

bind-nil : (m : Result (List Job)) → m ≡ (m >>= λ rest. ok ([] ++ rest))
bind-nil (ok jobs) = refl
bind-nil (err e) = refl

bind-cons :
    (m : Result (List Job)) (job : Job) (jobs : List Job)
    → ((m >>= λ rest. ok (jobs ++ rest)) >>= λ all. ok (job ∷ all))
      ≡ (m >>= λ rest. ok (job ∷ (jobs ++ rest)))
bind-cons (ok rest) job jobs = refl
bind-cons (err e) job jobs = refl

-- The front is scanned, then the rest.
pub scan_jobs-split :
    (null_text : NullText) (n : ℕ) (rows : Db) (front : List Job)
    → scan_jobs null_text (take n rows) ≡ ok front
    → scan_jobs null_text rows ≡ (scan_jobs null_text (drop n rows) >>= λ rest. ok (front ++ rest))
unfolding scan_jobs
scan_jobs-split null_text zero rows front h =
    subst (λ f. scan_jobs null_text rows ≡ (scan_jobs null_text rows >>= λ rest. ok (f ++ rest)))
      (eq_of_ok h) (bind-nil (scan_jobs null_text rows))
scan_jobs-split null_text (suc n) [] front h =
    subst (λ f. ok [] ≡ (ok [] >>= λ rest. ok (f ++ rest))) (eq_of_ok h) refl
scan_jobs-split null_text (suc n) (r ∷ rows) front h =
    let (job, e, next) = bind-ok (scan_job null_text r) _ h in
    let (jobs, es, made) = bind-ok (scan_jobs null_text (take n rows)) _ next in
    let others = scan_jobs null_text (drop n rows) in
    ap (λ o. o >>= λ j. scan_jobs null_text rows >>= λ js. ok (j ∷ js)) e
    ∙ ap (λ o. o >>= λ js. ok (job ∷ js)) (scan_jobs-split null_text n rows jobs es)
    ∙ bind-cons others job jobs
    ∙ ap (λ f. others >>= λ rest. ok (f ++ rest)) (eq_of_ok made)
