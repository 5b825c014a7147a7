-- ===== src/Examples/Certificates.antt =====
-- Loading a configuration: a client without a readable key file, and lists of protocols.
use quicer.Prelude.{
  arith, ◌||◌, ◌&&◌, not, if◌then◌else◌, inl, ◌+◌, ◌≡◌, refl, true, false, some, none, List, [],
  ◌∷◌, tally,
}
use quicer.Nif.{Nif, Status, atom, ok, Reply}
use quicer.Nif.Atoms.{Atom}
use quicer.Nif.Sample.{sample, sample_map, sample_atom, SampleTerm, empty, pair, bytes}
use quicer.Config.Settings.{create_settings}
use quicer.Connection.Opening.{Sets}
use quicer.Connection.Open
use quicer.Options
use quicer.Options.Balance.{Told, Ends}
use quicer.Options.Choices.{set_connection_opt-Told}
use quicer.Options.Writing.{is_positive, set_connection_opt}
use quicer.Options.Connecting.{set_connection_opt-Sets}
use quicer.Tls
use quicer.Tls.{alloc_string, parse_verify_options}
use quicer.Tls.Alpn.{strlen, load_alpn, entries, load_alpn-lengths_of}
use quicer.Tls.Verifying
use quicer.Tls.Verifying.{Decision, IsDocumented, goes_on-parse_verify_options}
use quicer.Connection.Security.{OpenSsl, handle_connection_event_peer_certificate_received}
use quicer.Prelude.Int.{pos}
use quicer.Tls.Loading.{Answers, client_load_configuration, no_flags}
use quicer.Tls.Memory.{strings_up, strings_down, files_up, files_down}
use quicer.Tls.Clients.{lost_by_client, client_load_configuration-strings}
use quicer.Examples.Setting.{plain_host, plain-Healthy, host, c_ctx, name}

abbrev h2 : SampleTerm
h2 = bytes (104 ∷ 50 ∷ [])

abbrev h3 : SampleTerm
h3 = bytes (104 ∷ 51 ∷ [])

-- `["h2", "h3"]`
abbrev protocols : SampleTerm
protocols = SampleTerm.map (pair Atom.ok h2 (pair Atom.ok h3 empty))

-- A file for the certificate, and none for the key.
abbrev options : Nif.Term sample
options = sample_map (pair Atom.certfile (bytes (99 ∷ [])) (pair Atom.alpn protocols empty))

load_alpn-lengths_of_example : load_alpn plain_host options ≡ entries (2 ∷ 2 ∷ [])
unfolding host sample sample_map strlen is_positive
load_alpn-lengths_of_example =
    load_alpn-lengths_of plain_host options protocols h2 (h3 ∷ []) refl refl
      (SampleTerm.map (pair Atom.ok h3 empty), refl, (SampleTerm.map empty, refl, refl))
      (refl, (refl, tt))

-- The client asks for the server's certificate to be verified, with a file of authorities.
abbrev verifying : Nif.Term sample
verifying = sample_map (
    pair Atom.verify (SampleTerm.atom Atom.verify_peer)
      (pair Atom.cacertfile (bytes (99 ∷ [])) empty))

abbrev ssl : OpenSsl
ssl = record { dup = λ cert. cert; verify_cert = λ store cert chain. pos 1; der = λ cert. none }

abbrev goes_on : Decision
goes_on flags valid st =
    (flags.no_certificate_validation || valid)
    && (if flags.indicate_certificate_received then not (sample.failed st) else true)

goes_on-IsDocumented : IsDocumented sample goes_on
unfolding sample
goes_on-IsDocumented = record {
  reported = λ flags valid st e. rw (e) refl;
  unreported = λ flags valid st e. ground (arith, e);
  bad_certificate = refl;
}

goes_on-parse_verify_options_example :
    goes_on
      (parse_verify_options plain_host verifying false no_flags)
      false
      (Verifying.answer_of (handle_connection_event_peer_certificate_received ssl c_ctx 3 4))
    ≡ true
unfolding sample sample_map
goes_on-parse_verify_options_example =
    goes_on-parse_verify_options plain_host ssl goes_on goes_on-IsDocumented verifying c_ctx 3 4
      false

abbrev answers : Answers
answers = record { opened = Status.success; loaded = Status.success }

abbrev loading : List Tls.Effect
loading =
    alloc_string
    ∷ Tls.open_configuration (2 ∷ 2 ∷ [])
    ∷ Tls.load_credential (record no_flags { no_certificate_validation = true })
    ∷ []

loads :
    client_load_configuration plain_host true true true answers options
    ≡ Tls.done loading (atom Atom.ok)
unfolding client_load_configuration host sample sample_map create_settings
loads = refl

client_load_configuration-strings_example :
    (tally strings_up loading
      ≡ tally strings_down loading
        + lost_by_client plain_host answers true true true options
            (create_settings sample plain_host.store options))
    × (tally files_up loading ≡ tally files_down loading)
client_load_configuration-strings_example =
    client_load_configuration-strings plain_host answers true true true options loading
      (atom Atom.ok) loads

abbrev answer_of : Options.Run → Reply
answer_of Options.fault = ok
answer_of (Options.done fx r) = r

ended :
    (run : Options.Run)
    → Ends (Told plain_host) run
    → (fx : List Options.Effect) × (run ≡ Options.done fx (answer_of run))
ended Options.fault e = absurd e
ended (Options.done fx r) e = (fx, refl)

-- Every option of a connection is set on the connection 6.
abbrev opening : Open.Answers sample
opening = record {
  registration = λ t. none;
  handle_of = λ r. 0;
  global = 2;
  c_ctx_allocated = true;
  acceptor_allocated = true;
  self = some 7;
  new_handle = 4;
  opened = Status.success;
  opened_connection = 6;
  close_reports = false;
  set_connection_opt =
      λ o v. answer_of (set_connection_opt plain_host c_ctx (name o) v (name Atom.false));
}

no_level : sample.is_same (name Atom.false) Atom.false ≡ true
unfolding sample sample_atom
no_level = refl

answered :
    (o : Atom) (v : Nif.Term sample)
    → (fx : List Options.Effect) × (set_connection_opt plain_host c_ctx (name o) v (name Atom.false)
        ≡ Options.done fx (opening.set_connection_opt o v))
answered o v = ended (set_connection_opt plain_host c_ctx (name o) v (name Atom.false)) (
    set_connection_opt-Told plain_host plain-Healthy c_ctx (name o) v (name Atom.false)
      (inl no_level))

set_connection_opt-Sets_example : Sets sample opening
set_connection_opt-Sets_example =
    set_connection_opt-Sets plain_host opening (name Atom.false) (λ o v. c_ctx) name plain-Healthy
      no_level answered
