-- ===== src/Tests/Worlds.antt =====
-- A process that loads both routing databases.
use lnr_high_performance.Base.{
  ℕ, ◌≡◌, ◌⊎◌, refl, true, false, none, some, List, [], ◌∷◌, Bytes, Option, done, arith,
}
use lnr_high_performance.Control.Reachable.{Reach, here, next, Reach-Keeps}
use lnr_high_performance.Control.Server.{
  Message, World, request_of, country_of, message_country, map_fd, run_request, on_message,
}
use lnr_high_performance.Control.Serving.{Keeps}
use lnr_high_performance.Control.{success, settle, load_file, dispatch, is_available}
use lnr_high_performance.Csv.Lines.{text_of, at}
use lnr_high_performance.Csv.{Stream, getline, from_csv, load_rows}
use lnr_high_performance.PhoneMapping.Lines.{to_numbers, two_columns, parse_line, read_line}
use lnr_high_performance.PhoneMapping.{new_data, set_metadata, add_row, phone_list, build}
use lnr_high_performance.Service.{
  target, direct, blank, on_request, make_handler, Answered, on_request-Answered, on_request_stays,
}
use lnr_high_performance.Tests.Calls.{acls, start}
use lnr_high_performance.Tests.Commands.{maps, metas}
use lnr_high_performance.Tests.Concrete.{plain}
use lnr_high_performance.Tests.Web.{show, asked, us, F}
use lnr_high_performance.Text.{codes, same_text}

program : Unit {0}
unfolding on_message message_country country_of map_fd request_of run_request dispatch load_file
    load_rows from_csv getline settle read_line parse_line to_numbers two_columns add_row new_data
    set_metadata phone_list same_text is_available on_request make_handler
program = tt

abbrev lines : List Bytes
lines = codes "2125550123,2125559999" ∷ []

abbrev file : Option ℕ → Option Stream
file fd = some (at (text_of lines []))

-- reload, from the first descriptor
abbrev reload_from : Bytes → Message
reload_from country = record {
  cmd = some (codes "reload");
  country = some country;
  stdin = some 0;
  stdout = none;
  stderr = none;
  argfd = 5 ∷ [];
}

abbrev first : World maps acls
first = record (blank maps acls) {
  globals = record (blank maps acls).globals { us = some (build F us) };
}

abbrev both : World maps acls
both = record first { globals = record first.globals { ca = some (build F us) } }

abbrev Reached : World maps acls → World maps acls → Type 0
Reached = Reach plain maps acls start show 16 9

first_loaded :
    on_message plain maps metas 0 acls start show 16 9 file
      (reload_from (codes "US"))
      (blank maps acls)
    ≡ done (first, success, none)
unfolding program
first_loaded = refl

path : Reached (blank maps acls) both
unfolding program
path =
    next metas 0 file (reload_from (codes "CA")) success none
      (next metas 0 file (reload_from (codes "US")) success none here refl) refl

both_available : is_available both.globals ≡ true
unfolding program
both_available = refl

found : on_request first.globals (codes "/target") ≡ direct 503
unfolding program
found = refl

found_later : on_request both.globals (codes "/target") ≡ target
unfolding program
found_later = refl

-- the US file once more, which is another load of the same rows
again : Reached both both
unfolding program
again = next metas 0 file (reload_from (codes "US")) success none here refl

Reach-Keeps_example : Keeps (blank maps acls).globals both.globals
Reach-Keeps_example = Reach-Keeps plain maps acls start show 16 9 path

on_request-Answered_example :
    ((is_available both.globals ≡ true)
      × (on_request both.globals (codes "/target") ≡ target)
      × Answered maps (λ s. 16) show both.globals true asked)
    ⊎ ((is_available both.globals ≡ false)
        × (on_request both.globals (codes "/target") ≡ direct 503))
on_request-Answered_example =
    on_request-Answered plain maps acls start show 16 9 (λ s. 16) (λ s. omega arith) path true asked

on_request_stays_example : on_request both.globals (codes "/target") ≡ target
on_request_stays_example = on_request_stays plain maps acls start show 16 9 again found_later
