-- ===== src/Venue/Directory/Refines.antt =====
-- Each request on the venue service is one step of the directory of venues.
use booking_venue.Venue.Directory.Runs.{Runs}
