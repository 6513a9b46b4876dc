-- ===== src/Store/Engine.antt =====
-- The engine of src/factory/db.py, that is made once, and the sessions bound to it. The connection
-- itself is SQLAlchemy's, and the tables that init_db creates are those of Migrations/Models.
use human_data.Prelude.{
  Option, inl, List, ◌≡◌, inr, none, String, ◌⊎◌, ◌∷◌, not, some, Bool, [], refl, starts_with, ap,
  arith, sym,
}

-- an engine, as what it is created from
pub record Engine : Type 0 where
  pub url : String
  pub check_same_thread : Bool

-- `settings.database_url` and the two globals; a session factory is the engine it is bound to
pub record Globals : Type 0 where
  pub database_url : String
  pub engine : Option Engine
  pub session_local : Option Engine

-- SQLAlchemy checks the thread unless it is told not to
unfoldable pub create_engine : String → Engine
create_engine url = record { url = url; check_same_thread = not (starts_with url "sqlite") }

abbrev pub new_engine : String → Globals → Engine × Globals
new_engine url g =
    let made = create_engine url in
    (made, record g { engine = some made; session_local = some made })

-- `get_engine`
unfoldable pub get_engine : Globals → Engine × Globals
get_engine g = elim g.engine [ none ↦ new_engine g.database_url g | some e ↦ (e, g) ]

-- `init_db`, as far as the globals go
unfoldable pub init_db : Globals → Globals
init_db g = (get_engine g).1

-- `session`: what the session is bound to, and `none` where the assertion fails
unfoldable pub session : Globals → Option Engine × Globals
session g = let after = (get_engine g).1 in (after.session_local, after)

-- `reset_for_tests`
unfoldable pub reset_for_tests : String → Globals → Globals
reset_for_tests url g =
    init_db (record g { database_url = url; engine = none; session_local = none })

-- a call of the module, in the order in which they come
pub data Call : Type 0 where
  gets_engine opens_session creates_tables : Call
  resets : String → Call

unfoldable pub after_call : Globals → Call → Globals
after_call g gets_engine = (get_engine g).1
after_call g opens_session = (session g).1
after_call g creates_tables = init_db g
after_call g (resets url) = reset_for_tests url g

unfoldable pub after_calls : Globals → List Call → Globals
unfolding after_call
after_calls g [] = g
after_calls g (c ∷ cs) = after_calls (after_call g c) cs

-- the globals of a fresh process
abbrev pub at_import : String → Globals
at_import url = record { database_url = url; engine = none; session_local = none }

-- The engine and the factory are made together, from the database URL.
abbrev pub IsBound : Globals → Type 0
IsBound g =
    (g.engine ≡ g.session_local)
    × ((g.engine ≡ none) ⊎ (g.engine ≡ some (create_engine g.database_url)))

fresh_lem :
    (url : String) (engine session_local : Option Engine)
    → let g : Globals = record {
      database_url = url;
      engine = engine;
      session_local = session_local;
    } in
      IsBound g
      → ((get_engine g).0 ≡ create_engine url)
        × ((get_engine g).1 ≡ record {
          database_url = url;
          engine = some (create_engine url);
          session_local = some (create_engine url);
        })
unfolding get_engine
fresh_lem url none session_local b = (refl, refl)
fresh_lem url (some e) session_local (same, inl made) = ground arith
fresh_lem url (some e) session_local (same, inr made) =
    let own : e ≡ create_engine url = ground arith in rw (sym same, own) (refl, refl)

get_engine-IsBound : (g : Globals) → IsBound g → IsBound (get_engine g).1
get_engine-IsBound g b =
    rw ((fresh_lem g.database_url g.engine g.session_local b).1) (refl, inr refl)

call-IsBound : (g : Globals) (c : Call) → IsBound g → IsBound (after_call g c)
unfolding after_call session init_db reset_for_tests
call-IsBound g gets_engine b = get_engine-IsBound g b
call-IsBound g opens_session b = get_engine-IsBound g b
call-IsBound g creates_tables b = get_engine-IsBound g b
call-IsBound g (resets url) b = get_engine-IsBound _ (refl, inl refl)

calls-IsBound : (g : Globals) (cs : List Call) → IsBound g → IsBound (after_calls g cs)
unfolding after_calls
calls-IsBound g [] b = b
calls-IsBound g (c ∷ cs) b = calls-IsBound (after_call g c) cs (call-IsBound g c b)

-- After any calls from the start of the process, a session opens, bound to the engine of the URL
-- that the settings have.
pub session-bound :
    (url : String) (cs : List Call)
    → let g = after_calls (at_import url) cs in (session g).0 ≡ some (create_engine g.database_url)
unfolding session
session-bound url cs =
    let g = after_calls (at_import url) cs in
    let b = calls-IsBound (at_import url) cs (refl, inl refl) in
    ap (λ (x : Globals). x.session_local) ((fresh_lem g.database_url g.engine g.session_local b).1)
