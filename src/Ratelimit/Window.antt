-- ===== src/Ratelimit/Window.antt =====
-- The limit of src/factory/ratelimit.py counts the requests of a key in its minute.
use human_data.Prelude.{
  List, ℕ, length, ◌/◌, Bool, ◌∷◌, ◌<◌, ◌==◌, select, ◌≤◌, [], ◌≡◌, ◌&&◌, refl, false, arith,
  Bool-cases, inl, not, ◌+◌, inr, ap, ==_iff, ltb, ap₂, leb, ==_refl, sym, subst, ◌∙◌,
}
use human_data.Ratelimit.{
  minute, Entry, hit, count_in, entry_of, is_current, bounded, is_of, set_count, max_entries,
}

-- a request: its moment and its key
abbrev pub Request : Type 0
Request = ℕ × ℕ

abbrev pub is_hit : ℕ → ℕ → Request → Bool
is_hit key window r = r.1 == key && r.0 / minute == window

-- how many requests the key made in the window
abbrev pub hits : ℕ → ℕ → List Request → ℕ
hits key window history = length (select (is_hit key window) history)

-- the entries after the requests, of which the newest stands first
abbrev pub entries_after : ℕ → List Request → List Entry
entries_after limit [] = []
entries_after limit (r ∷ history) = (hit r.0 r.1 limit (entries_after limit history)).entries

-- the moments are at most this one, and never go back
abbrev pub IsOrdered : ℕ → List Request → Type 0
IsOrdered now [] = Unit
IsOrdered now (r ∷ history) = (r.0 ≤ now) × IsOrdered r.0 history

-- one entry for each key
abbrev One : List Entry → Type 0
One entries = (key : ℕ) → length (select (is_of key) entries) ≤ 1

select-dropped :
    (key : ℕ) (window : ℕ) (entries : List Entry)
    → length (select (is_of key) (select (is_current window) entries))
      ≤ length (select (is_of key) entries)
select-dropped key window [] = omega arith
select-dropped key window (x ∷ xs) = ground (arith, select-dropped key window xs)

nil-of_length : (entries : List Entry) → length entries ≤ 0 → entries ≡ []
nil-of_length [] h = refl
nil-of_length (x ∷ xs) h = absurd (omega arith)

entry_of-dropped :
    (key window : ℕ) (entries : List Entry)
    → length (select (is_of key) entries) ≤ 1
    → count_in window (entry_of key (select (is_current window) entries))
      ≡ count_in window (entry_of key entries)
entry_of-dropped key window [] h = refl
entry_of-dropped key window (x ∷ xs) h = ground (
  arith,
  entry_of-dropped key window xs,
  select-dropped key window xs,
  nil-of_length (select (is_of key) (select (is_current window) xs)),
)

entry_of-other :
    (key window other : ℕ) (entries : List Entry)
    → (window == other) ≡ false
    → count_in other (entry_of key (select (is_current window) entries)) ≡ 0
entry_of-other key window other [] n = refl
entry_of-other key window other (x ∷ xs) n = ground (arith, entry_of-other key window other xs)

select-others :
    (key other : ℕ) (entries : List Entry)
    → (other == key) ≡ false
    → select (is_of key) (select (λ x. not (is_of other x)) entries) ≡ select (is_of key) entries
select-others key other [] n = refl
select-others key other (x ∷ xs) n = ground (arith, select-others key other xs)

select-same :
    (key : ℕ) (entries : List Entry)
    → select (is_of key) (select (λ x. not (is_of key x)) entries) ≡ []
select-same key [] = refl
select-same key (x ∷ xs) = ground (arith, select-same key xs)

hits-zero :
    (key window now : ℕ) (history : List Request)
    → IsOrdered now history
    → now / minute < window
    → hits key window history ≡ 0
hits-zero key window now [] o l = refl
hits-zero key window now (r ∷ history) o l =
    ground (arith, hits-zero key window r.0 history o.1 (omega (arith, o.0)))

-- after a request, before stale entries are dropped
module _ (r : Request) (entries : List Entry) (one : One entries) where
  abbrev entered : List Entry
  entered =
      set_count
        (record {
          key = r.1;
          window = r.0 / minute;
          count = count_in (r.0 / minute) (entry_of r.1 entries) + 1;
        })
        entries

  entered-One : One entered
  entered-One key = ground (arith, one key, select-same key entries, select-others key r.1 entries)

  bounded-One : One (bounded (r.0 / minute) entered)
  bounded-One key = ground (arith, entered-One key, select-dropped key (r.0 / minute) entered)

  entered_counts :
      (history : List Request)
      → IsOrdered r.0 history
      → ((key w : ℕ) → r.0 / minute ≤ w → count_in w (entry_of key entries) ≡ hits key w history)
      → (key w : ℕ) → r.0 / minute ≤ w
      → count_in w (entry_of key entered) ≡ hits key w (r ∷ history)
  entered_counts history o c key w l = elim (Bool-cases (r.1 == key)) [
    | inl same ↦ elim (Bool-cases (r.0 / minute == w)) [
      | inl now ↦
          rw (same, now)
            (omega (
              arith,
              c key w l,
              ap₂ (λ v k. count_in v (entry_of k entries)) ((==_iff (r.0 / minute) w).0 now)
                  ((==_iff r.1 key).0 same),
            ))
      | inr later ↦ rw (same, later) (sym (hits-zero key w r.0 history o (ground arith)))
    ]
    | inr other ↦ rw (other, select-others key r.1 entries other) (c key w l)
  ]

  bounded_counts :
      (history : List Request)
      → IsOrdered r.0 history
      → ((key w : ℕ) → r.0 / minute ≤ w → count_in w (entry_of key entries) ≡ hits key w history)
      → (key w : ℕ) → r.0 / minute ≤ w
      → count_in w (entry_of key (bounded (r.0 / minute) entered)) ≡ hits key w (r ∷ history)
  bounded_counts history o c key w l = elim (Bool-cases (ltb max_entries (length entered))) [
    | inr few ↦ rw few (entered_counts history o c key w l)
    | inl many ↦ rw many (elim (Bool-cases (r.0 / minute == w)) [
      | inl now ↦
          subst
            (λ v.
              count_in v (entry_of key (select (is_current (r.0 / minute)) entered))
              ≡ hits key v (r ∷ history))
            ((==_iff (r.0 / minute) w).0 now)
            (entry_of-dropped key (r.0 / minute) entered (entered-One key)
              ∙ entered_counts history o c key (r.0 / minute) (omega arith))
      | inr later ↦
          entry_of-other key (r.0 / minute) w entered later
          ∙ sym (hits-zero key w r.0 (r ∷ history) (omega arith, o) (ground arith))
    ])
  ]

history_lem :
    (limit now : ℕ) (history : List Request)
    → IsOrdered now history
    → One (entries_after limit history)
      × ((key w : ℕ)
          → now / minute ≤ w
          → count_in w (entry_of key (entries_after limit history)) ≡ hits key w history)
unfolding hit
history_lem limit now [] o = (λ key. omega arith, λ key w l. refl)
history_lem limit now (r ∷ history) o =
    let (one, c) = history_lem limit r.0 history o.1 in
    (
      bounded-One r (entries_after limit history) one,
      λ key w l.
          bounded_counts r (entries_after limit history) one history o.1 c key w
            (omega (arith, o.0, l)),
    )

-- Where the clock does not go back, a request is let through exactly if the requests of its key in
-- its minute, this one included, are within the limit.
pub hit-allowed :
    (limit now key : ℕ) (history : List Request)
    → IsOrdered now history
    → (hit now key limit (entries_after limit history)).allowed
      ≡ leb (hits key (now / minute) ((now, key) ∷ history)) limit
unfolding hit
hit-allowed limit now key history o =
    ap (λ n. leb n limit)
      (rw (==_refl key, ==_refl (now / minute))
        (omega (arith, (history_lem limit now history o).1 key (now / minute) (omega arith))))
