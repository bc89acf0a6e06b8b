-- ===== src/Localhost/Server.antt =====
-- The steps of LocalhostAuth after its set-up. A handler's work on the store is one step; what it does
-- after that is the deferred send on stopChannel, which has room for one value.
use evesso.Prelude.{◌≡◌, ℕ, String, Bool, true, false, Option, none, some, List, ◌∷◌, suc}
use evesso.Exec.{Error, timed_out, Done, Result, ok, err}
use evesso.World.{World}
use evesso.Sso.{Sso, AppConfig}
use evesso.Callback.{handle_localhost}

-- The goroutine that serves: still in ListenAndServe, out of it with an error (nil for
-- http.ErrServerClosed), or done with its send on errChannel.
pub data Serving : Type 0 where
  listening : Serving
  ended : Result Done → Serving
  reported : Serving

-- LocalhostAuth itself: at the select, in srv.Shutdown, or returned.
pub data Main : Type 0 where
  selecting shutting : Main
  returned : Result Done → Main

module _ (w : World) where
  -- `arriving` are the requests to come, as code and state. `busy` counts the handlers that have not got
  -- rid of their send, and `accepted` those that have started. `stop` and `error` are the two channels.
  pub record Server : Type 0 where
    pub world : w.State
    pub arriving : List (String × String)
    pub accepted : ℕ
    pub busy : ℕ
    pub stop : Bool
    pub error : Option (Result Done)
    pub serving : Serving
    pub expired : Bool
    pub shutdown : Bool
    pub main : Main

  abbrev pub start : w.State → List (String × String) → Server
  start s requests = record {
    world = s;
    arriving = requests;
    accepted = 0;
    busy = 0;
    stop = false;
    error = none;
    serving = Serving.listening;
    expired = false;
    shutdown = false;
    main = Main.selecting;
  }

module _ (w : World) (sso : Sso w) (cfg : AppConfig) where
  pub data Step (s u : Server w) : Type 0 where
    -- A request is accepted, and its handler runs up to the deferred send.
    accept :
        (code state : String) (rest : List (String × String))
        → s.arriving ≡ (code, state) ∷ rest
        → s.serving ≡ Serving.listening
        → s.shutdown ≡ false
        → u ≡ record s {
          world = (handle_localhost w sso cfg code state s.world).1;
          arriving = rest;
          accepted = suc s.accepted;
          busy = suc s.busy;
        }
        → Step s u
    -- `stopChannel <- struct{}{}`
    send :
        (n : ℕ)
        → s.busy ≡ suc n
        → s.stop ≡ false
        → u ≡ record s { busy = n; stop = true }
        → Step s u
    -- ListenAndServe fails, or ends because of Shutdown.
    fail :
        (e : Error)
        → s.serving ≡ Serving.listening
        → s.shutdown ≡ false
        → u ≡ record s { serving = Serving.ended (err e) }
        → Step s u
    close :
        s.serving ≡ Serving.listening
        → s.shutdown ≡ true
        → u ≡ record s { serving = Serving.ended (ok tt) }
        → Step s u
    -- `errChannel <- serveErr`
    report :
        (r : Result Done)
        → s.serving ≡ Serving.ended r
        → u ≡ record s { serving = Serving.reported; error = some r }
        → Step s u
    -- the five minutes
    expire : s.expired ≡ false → u ≡ record s { expired = true } → Step s u
    -- the three cases of the select
    take_error :
        (r : Result Done)
        → s.main ≡ Main.selecting
        → s.error ≡ some r
        → u ≡ record s { error = none; main = Main.returned r }
        → Step s u
    take_stop :
        s.main ≡ Main.selecting
        → s.stop ≡ true
        → u ≡ record s { stop = false; shutdown = true; main = Main.shutting }
        → Step s u
    take_deadline :
        s.main ≡ Main.selecting
        → s.expired ≡ true
        → u ≡ record s { shutdown = true; main = Main.shutting }
        → Step s u
    -- srv.Shutdown returns when no handler is busy, or with the error of the context.
    drained :
        s.main ≡ Main.shutting
        → s.busy ≡ 0
        → u ≡ record s { main = Main.returned (ok tt) }
        → Step s u
    give_up :
        s.main ≡ Main.shutting
        → s.expired ≡ true
        → u ≡ record s { main = Main.returned (err timed_out) }
        → Step s u

  pub data Reach (s : Server w) : Server w → Type 0 where
    here : Reach s s
    next : {t u : Server w} → Reach s t → Step t u → Reach s u
