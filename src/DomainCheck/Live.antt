-- ===== src/DomainCheck/Live.antt =====
-- That a tick of src/domain-check/domain-check.processor.ts gets every domain checked.
use servers_manager.Base.{
  ℕ, ◌≤◌, ◌≡◌, refl, ==_iff, ==_refl, Bool, true, false, some, List, [], ◌∷◌, ◌++◌, map, ◌==◌,
  find?, any, count, ap, ◌∙◌, All, arith, Bool-cases, Option-cases, inl, inr,
}
use servers_manager.Db.{Db, Domain, write_log}
use servers_manager.Db.Table.{update_where, update_where-none, find?-none, find?-sound}
use servers_manager.DomainCheck.{
  DomainPorts, tick, check, check_found, check_row, check_domain, checked_domain, stored, look_up,
  enqueue_check_for_all_domains, process,
}
use servers_manager.DomainCheck.Kept.{check_certificate-domains, save_checked-loaded}

-- A job as a worker takes it: what the platform answers meanwhile, when, and for which domain.
pub record Run : Type 0 where
  pub ports : DomainPorts
  pub now : ℕ
  pub domain_id : ℕ

unfoldable pub work : List Run → Db → Db
work [] db = db
work (run ∷ runs) db = work runs (process run.ports run.now db (check run.domain_id))

abbrev pub IsCheckedSince : ℕ → Domain → Type 0
IsCheckedSince start domain = (time : ℕ) × (domain.last_checked_at ≡ some time) × (start ≤ time)

-- The domain is one of those whose jobs are still to come, or checked already.
data IsReached (start : ℕ) (ids : List ℕ) (domain : Domain) : Type 0 where
  waits : any (λ id. domain.id == id) ids ≡ true → IsReached start ids domain
  is_done : IsCheckedSince start domain → IsReached start ids domain

All-write {ℓ κ} :
    {A : Type ℓ} (P Q : A → Type κ) (p : A → Bool) (f : A → A) (rows : List A)
    → ((row : A) → P row → p row ≡ true → Q (f row))
    → ((row : A) → P row → p row ≡ false → Q row)
    → All P rows
    → All Q (update_where p f rows)
unfolding update_where
All-write P Q p f [] picked left h = tt
All-write P Q p f (row ∷ rows) picked left h = elim (Bool-cases (p row)) [
  | inl e ↦ rw e (picked row h.0 e, All-write P Q p f rows picked left h.1)
  | inr e ↦ rw e (left row h.0 e, All-write P Q p f rows picked left h.1)
]

leaves :
    (start id : ℕ) (ids : List ℕ) (row : Domain)
    → IsReached start (id ∷ ids) row
    → (row.id == id) ≡ false
    → IsReached start ids row
leaves start id ids row (waits h) e = waits (ground arith)
leaves start id ids row (is_done h) e = is_done h

module _ (ports : DomainPorts) (now start : ℕ) (later : start ≤ now) (id : ℕ) (ids : List ℕ) where
  -- Where no row has the id, its job leaves nothing to do.
  unfound-IsReached :
      (db : Db)
      → count (λ row. row.id == id) db.domains ≡ 0
      → All (IsReached start (id ∷ ids)) db.domains
      → All (IsReached start ids) db.domains
  unfound-IsReached db nobody h =
      let f : Domain → Domain = λ row. record row { last_checked_at = some now } in
      rw (← update_where-none (λ row. row.id == id) f db.domains nobody) (
        All-write (IsReached start (id ∷ ids)) (IsReached start ids) (λ row. row.id == id) f
          db.domains (λ row r k. is_done (now, refl, later))
          (λ row r k. leaves start id ids row r k) h)

  found-IsReached :
      (db : Db) (domain : Domain)
      → domain.id ≡ id
      → find? (λ row. row.id == domain.id) db.domains ≡ some domain
      → All (IsReached start (id ∷ ids)) db.domains
      → All (IsReached start ids) (check_found ports now db domain).domains
  unfolding check_found look_up write_log stored checked_domain
  found-IsReached db domain same found h =
      rw (save_checked-loaded ports now (look_up ports now db domain) domain found) (
        rw (check_certificate-domains ports now _ _ _) (
          All-write (IsReached start (id ∷ ids)) (IsReached start ids) (λ row. row.id == domain.id)
            (λ row. stored ports now domain) db.domains (λ row r e. is_done (now, refl, later))
            (λ row r e. leaves start id ids row r (ground (arith, same, e))) h))

  check_domain-IsReached :
      (db : Db)
      → All (IsReached start (id ∷ ids)) db.domains
      → All (IsReached start ids) (check_domain ports now db id).domains
  unfolding check_domain check_row
  check_domain-IsReached db h = elim (Option-cases (find? (λ row. row.id == id) db.domains)) [
    | inl e ↦
        rw (e, check_domain)
          (unfound-IsReached db (find?-none (λ row. row.id == id) db.domains e) h)
    | inr (domain, e) ↦
        let same : domain.id ≡ id =
          (==_iff domain.id id).0 (find?-sound (λ row. row.id == id) db.domains domain e) in
        rw (e, check_domain)
          (found-IsReached db domain same (ap (λ i. find? (λ row. row.id == i) db.domains) same ∙ e)
            h)
  ]

work-IsReached :
    (start : ℕ) (runs : List Run) (db : Db)
    → All (λ run. start ≤ run.now) runs
    → All (IsReached start (map (λ run. run.domain_id) runs)) db.domains
    → All (IsReached start []) (work runs db).domains
unfolding work process
work-IsReached start [] db later h = h
work-IsReached start (run ∷ runs) db later h =
    work-IsReached start runs (check_domain run.ports run.now db run.domain_id) later.1 (
      check_domain-IsReached run.ports run.now start later.0 run.domain_id
        (map (λ r. r.domain_id) runs) db h)

any-append : (p : ℕ → Bool) (xs ys : List ℕ) → any p ys ≡ true → any p (xs ++ ys) ≡ true
any-append p [] ys h = h
any-append p (x ∷ xs) ys h = ground (arith, any-append p xs ys h)

All-waits :
    (start : ℕ) (ids : List ℕ) (rows : List Domain)
    → ((x : ℕ)
        → any (λ id. x == id) (map (λ row. row.id) rows) ≡ true
        → any (λ id. x == id) ids ≡ true)
    → All (IsReached start ids) rows
All-waits start ids [] h = tt
All-waits start ids (row ∷ rows) h = (
  waits (h row.id (rw (==_refl row.id))),
  All-waits start ids rows (λ x k. h x (ground (arith, k))),
)

All-done :
    (start : ℕ) (rows : List Domain)
    → All (IsReached start []) rows
    → All (IsCheckedSince start) rows
All-done start [] h = tt
All-done start (row ∷ rows) h = (done row h.0, All-done start rows h.1)
  where
    done : (r : Domain) → IsReached start [] r → IsCheckedSince start r
    done r (waits e) = absurd (ground arith)
    done r (is_done c) = c

-- If no job runs before a time, then after a tick and the jobs of the queue in its order, each with
-- whatever the platform answers it, every domain of the table was last checked at that time or
-- later: no failing check keeps another domain from its own.
pub work-IsCheckedSince :
    (ports : DomainPorts) (start : ℕ) (db : Db) (runs : List Run)
    → All (λ run. start ≤ run.now) runs
    → map (λ run. run.domain_id) runs ≡ (process ports start db tick).domain_check_queue
    → All (IsCheckedSince start) (work runs (process ports start db tick)).domains
unfolding process enqueue_check_for_all_domains
work-IsCheckedSince ports start db runs later queued = All-done start _ (
    work-IsReached start runs (process ports start db tick) later (
      rw queued (
        All-waits start (db.domain_check_queue ++ map (λ row. row.id) db.domains) db.domains (λ x k.
          any-append (λ id. x == id) db.domain_check_queue (map (λ row. row.id) db.domains) k))))
