-- ===== src/Lib.antt =====
-- llm-proxy-pii-rust is a proxy between a client and a language model. It finds personal data in the
-- texts of a request, replaces each value by a placeholder such as [EMAIL_1], forwards the request, and
-- puts the values back into the answer, also where the answer arrives as a stream.
--
-- The parts, with the file of the repository and the module here:
--   src/pii/mod.rs         Kind (PiiKind and its labels), Entity (PiiEntity, DetectError), Budget (the
--                          allowance of validator calls of a request), Detector (PiiDetector)
--   src/pii/composite.rs   Detector (CompositeDetector is composite, FailOpen is failing_open)
--   src/pii/overlap.rs     Overlap (resolve_overlaps and all that it calls, under their names)
--   src/pii/anonymizer.rs  Placeholder (PLACEHOLDER_RE as an automaton, the tokens), Vault (Vault, mask,
--                          demask), Vault/Fixpoint (mask_all)
--   src/pii/cache.rs       Cache (Generational, with insert as put; CachingDetector::try_detect)
--   src/pii/recognizers.rs Checks (luhn_valid, credit_card_valid, iban_mod97), Checks/National and
--                          Checks/Letters (the other checksums, under their names), Scan (push_candidates,
--                          whose loop is scan_from, and shrink_to_a_valid_prefix), Scan/Detect
--                          (confidence_of, iban_case_gate, try_detect as structured_detect)
--   src/pii/ner_decode.rs  Ner (decode_entities, with flush as flush_pending_entity)
--   src/stream.rs          Stream (SseDemasker with the buffers that hold back a partial placeholder),
--                          Stream/Frames (flush_*, emit_*), Stream/Lines (handle_line, rewrite_*, push, flush)
--   src/pipeline/mod.rs    Stream (WireSchema), Privacy/Stage (RequestContext, with block as block_request)
--   src/pipeline/privacy.rs Privacy (mask_request and the shared helpers), Privacy/Anthropic (the native
--                          walk), Privacy/Augmentation (the instruction), Privacy/Stage (on_request),
--                          Privacy/Response (on_response)
-- A detector reads a text and the allowance and answers entities or an error. Its candidates are resolved
-- to entities that do not overlap, the vault replaces those by placeholders, and the text is detected again
-- until nothing is found or the passes run out. The vault that results restores the answer.
--
-- Texts are lists of bytes (UTF-8), and positions are byte positions, as in the source. Text and White
-- hold what the source uses of the standard library: character boundaries, slices, ASCII case, and the
-- white space that trim and the regex class \s share. A HashMap is an association list in which a key
-- stands at most once. State that the source changes through a reference is passed on and returned.
-- Counters are natural numbers: usize counts entities or calls of one request and does not wrap. A debug
-- assertion is left out, so the model is the release build. Log lines are left out.
--
-- Loops that the source writes with while run on the rounds left: a search for a character boundary gets
-- as many rounds as bytes follow, the decimal digits of n get n + 1 rounds, mask_all has the four passes
-- of MAX_MASK_PASSES, and a scan gets two rounds more than the text has bytes, the
-- shortening of a match one more than the match has, of which Scan/Fuel shows that they are enough. All other loops are recursion on the list.
--
-- A regular expression is a parameter: Pattern of Scan is what Regex::find_at answers. IsPattern of Scan/Spans
-- says what is relied on, that a match is not empty, lies in the text and is cut between characters.
--
-- The JSON library is a parameter: Codec of Stream, with the order of a hash map, and the function that
-- writes a string in Vault.demask_json_string. Json has the values themselves. Detectors are parameters
-- everywhere.
--
-- A walk over a JSON body takes the state of the closure that masks a text, and a refusal, which stands for
-- the Err that the source returns early: what follows a refusal is passed over. Privacy/Paths says, without
-- the walks, at which paths of a body its texts stand; Along is what it means for the texts at a path to
-- have a property. The descriptions of a schema are there all texts under a key description, at
-- any depth, as the source documents it; mask_schema_descriptions passes over what stands below a value under that
-- key that is no text, and IsPlain says of a schema that no description stands there. Privacy/Walks has the laws of walks, from which the files below Privacy are put together.
--
-- The checks of Checks read a text as the list of its characters, each as its number; those of Checks/National
-- and Checks/Letters as the list of its bytes, where a file does not say otherwise. The Spanish, the Italian and
-- the Chinese check answer none where the source would panic, that is on a slice or an index beyond the end of the
-- text or of a table. Where confidence_of would panic on two first bytes that cut a
-- character, the model answers as for a text that does not begin with NL. The u32
-- remainder of the IBAN check is below 97, so a step is below 97 * 100 + 36; the u32 sum of the Luhn check grows by at most 9 with each
-- digit, so it would take more than 477 million digits to wrap.
--
-- Not modelled: the regular expressions of the recognizers, the phone numbers that another library parses and
-- the tables of regions, the models that label tokens or spans, and the server with its configuration and logging.
pub mod Prelude
pub mod Text
pub mod White
pub mod Kind
pub mod Entity
pub mod Overlap
pub mod Budget
pub mod Detector
pub mod Placeholder
pub mod Vault
pub mod Cache
pub mod Json
pub mod Stream
pub mod Checks
pub mod Privacy
pub mod Scan
pub mod Ner
