-- ===== src/Venue/Directory/Runs.antt =====
-- Requests in a row, and steps of the directory in a row.
use booking_venue.Base.{List, [], ◌∷◌}
use booking_venue.Clock.{Time}
use booking_venue.Venue.Repo.{Store}
use booking_venue.Venue.Service.{Db}
use booking_venue.Venue.Transport.{Response, Request, serve}
use booking_venue.Venue.Directory.{Directory, Step}

-- A request with the environment that it has run in, and its response.
abbrev pub Call : Type 0
Call = Db × Time × Request × Response

-- Requests one after another, in any environments; the log has the latest first.
pub data Runs (st : Store) : List Call → Store → Type 0 where
  start : Runs st [] st
  next :
      {log : List Call} {mid : Store} (db : Db) (now : Time) (req : Request)
      → Runs st log mid
      → Runs st ((db, now, req, (serve db now req mid).0) ∷ log) (serve db now req mid).1

-- Steps of directories one after another.
pub data Steps (d : Directory) : List Call → Directory → Type 0 where
  start : Steps d [] d
  next :
      {log : List Call} {mid d' : Directory} {db : Db} {now : Time} {req : Request} {res : Response}
      → Steps d log mid
      → Step db now mid d' req res
      → Steps d ((db, now, req, res) ∷ log) d'
