-- ===== src/Json/RoundTrip.antt =====
-- What `JSON::parse` of json/JSON.cpp makes of a printed object.
use dumais_lib.Prelude.{
  ℕ, zero, suc, ◌+◌, ◌*◌, ◌≤◌, ◌<◌, some, [], ◌∷◌, ◌++◌, ◌≡◌, ◌≢◌, refl, ap, sym, ◌∙◌, arith, Text,
  length, length-append,
}
use dumais_lib.Json.Scan.{quote}
use dumais_lib.Json.Node.{
  Node, value, list, object, Items, no_items, item, Members, no_members, member, push_back, find,
}
use dumais_lib.Json.Print.{Level, stringify, comma_items, comma_members}
use dumais_lib.Json.Parse.{
  done, parse_object, parse_node, parse_members, parse_items, parse, enough_fuel,
}
use dumais_lib.Json.Compact.{
  IsPrintable, ArePrintable, ArePrintableMembers, compact, compact_items, compact_members,
}
use dumais_lib.Json.Spaces.{remove_spaces-stringify}
use dumais_lib.Json.Values.{property_of}
use dumais_lib.Json.Join.{
  join, join_items, join-nil, join_items-nil, join_assoc, join_items-push_back, AreFresh,
  AreFresh-join,
}
use dumais_lib.Json.Steps.{
  calls, calls_items, calls_members, items_end, members_end, compact-ne-nil, parse_value,
  items_step, members_step,
}

AreFresh-none : (ms : Members) → AreFresh no_members ms
unfolding find
AreFresh-none no_members = tt
AreFresh-none (member k v ms) = (refl, AreFresh-none ms)

mutual
  unfolding parse_node property_of

  parse_node-printed :
      (v : Node) (f : ℕ)
      → calls v ≤ f
      → IsPrintable v
      → parse_node f (property_of v).kind (property_of v) ≡ done (some v)
  parse_node-printed (value s t) zero le h = absurd (omega arith)
  parse_node-printed (value s t) (suc f) le h = parse_value f s t h
  parse_node-printed (list xs) zero le h = absurd (omega arith)
  parse_node-printed (list xs) (suc zero) le h = absurd (omega arith)
  parse_node-printed (list xs) (suc (suc f)) le h =
      rw (parse_items-printed xs f no_items (omega arith) h)
  parse_node-printed (object ms) zero le h = absurd (omega arith)
  parse_node-printed (object ms) (suc zero) le h = absurd (omega arith)
  parse_node-printed (object ms) (suc (suc f)) le h =
      rw (parse_members-printed ms f no_members (omega arith) h (AreFresh-none ms))

  parse_items-printed :
      (xs : Items) (f : ℕ) (read : Items)
      → calls_items xs ≤ f
      → ArePrintable xs
      → parse_items f (compact_items xs ++ b']' ∷ []) read ≡ done (join_items read xs)
  parse_items-printed no_items zero read le h = absurd (omega arith)
  parse_items-printed no_items (suc zero) read le h = absurd (omega arith)
  parse_items-printed no_items (suc (suc f)) read le h =
      items_end f read ∙ ap done (sym (join_items-nil read))
  parse_items-printed (item v xs) zero read le h = absurd (omega arith)
  parse_items-printed (item v xs) (suc f) read le (hv, hxs) =
      items_step v xs f read hv (parse_node-printed v f (omega arith) hv)
        (parse_items-printed xs f (push_back read v) (omega arith) hxs)
      ∙ ap done (join_items-push_back read v xs)

  parse_members-printed :
      (ms : Members) (f : ℕ) (read : Members)
      → calls_members ms ≤ f
      → ArePrintableMembers ms
      → AreFresh read ms
      → parse_members f (compact_members ms ++ b'}' ∷ []) read ≡ done (join read ms)
  parse_members-printed no_members zero read le h new = absurd (omega arith)
  parse_members-printed no_members (suc zero) read le h new = absurd (omega arith)
  parse_members-printed no_members (suc (suc f)) read le h new =
      members_end f read ∙ ap done (sym (join-nil read))
  parse_members-printed (member k v ms) zero read le h new = absurd (omega arith)
  parse_members-printed (member k v ms) (suc f) read le (hk, once, hv, hms) (new, later) =
      members_step k v ms f read hk hv new (parse_node-printed v f (omega arith) hv) (
        parse_members-printed ms f (join read (member k v no_members)) (omega arith) hms
          (AreFresh-join read k v ms later once)
        ∙ ap done (join_assoc read k v ms))

compact_filled : (v : Node) → IsPrintable v → 1 ≤ length (compact v)
compact_filled v h = filled (compact v) (compact-ne-nil v h)
  where
    filled : (s : Text) → s ≢ [] → 1 ≤ length s
    filled [] ne = absurd (ne refl)
    filled (c ∷ s) ne = omega arith

mutual
  unfolding compact

  calls-le : (v : Node) → IsPrintable v → calls v + 2 ≤ 3 * length (compact v)
  calls-le (value s t) h = omega (arith, compact_filled (value s t) h)
  calls-le (list xs) h =
      omega (arith, calls_items-le xs h, length-append (compact_items xs) (b']' ∷ []))
  calls-le (object ms) h =
      omega (arith, calls_members-le ms h, length-append (compact_members ms) (b'}' ∷ []))

  calls_items-le :
      (xs : Items) → ArePrintable xs → calls_items xs ≤ 2 + 3 * length (compact_items xs)
  calls_items-le no_items h = omega arith
  calls_items-le (item v xs) (hv, hxs) = omega (
    arith,
    calls-le v hv,
    calls_items-le xs hxs,
    length-append (compact v) (comma_items xs ++ compact_items xs),
    length-append (comma_items xs) (compact_items xs),
  )

  calls_members-le :
      (ms : Members)
      → ArePrintableMembers ms
      → calls_members ms ≤ 2 + 3 * length (compact_members ms)
  calls_members-le no_members h = omega arith
  calls_members-le (member k v ms) (hk, once, hv, hms) = omega (
    arith,
    calls-le v hv,
    calls_members-le ms hms,
    length-append k (quote ∷ b':' ∷ (compact v ++ (comma_members ms ++ compact_members ms))),
    length-append (compact v) (comma_members ms ++ compact_members ms),
    length-append (comma_members ms) (compact_members ms),
  )

parse_compact :
    (ms : Members) (f : ℕ)
    → calls_members ms < f
    → ArePrintableMembers ms
    → parse_object f (compact (object ms)) ≡ done ms
unfolding parse_object compact
parse_compact ms zero le h = absurd (omega arith)
parse_compact ms (suc f) le h =
    parse_members-printed ms f no_members (omega arith) h (AreFresh-none ms)

-- Parsing what `stringify` prints of an object gives the object back, at every level of
-- indentation, if its members are printable (keys that can be read back and differ, strings
-- without NUL, numbers and truth values in the parser's spelling).
pub parse-stringify :
    (ms : Members) (l : Level)
    → ArePrintableMembers ms
    → parse (stringify (object ms) l) ≡ done (object ms)
unfolding parse
parse-stringify ms l h =
    rw (remove_spaces-stringify (object ms) l h, parse_compact ms _ (enough ms h) h)
  where
    enough :
        (ns : Members)
        → ArePrintableMembers ns
        → calls_members ns < enough_fuel (compact (object ns))
    enough ns hn = omega (arith, calls-le (object ns) hn)
