-- ===== src/Lib.antt =====
-- A model of the macaroon bakery: a library for authorization with macaroons, whose caveats are
-- checked by the service that minted them or discharged by third parties.
--
-- The parts and how they interact:
-- - Checkers: first party caveats, bakery/checkers. Checkers.Caveat (checkers.go: Condition,
--   ParseCaveat; namespace.go: ConditionWithPrefix) builds and splits conditions. Checkers.Namespace (namespace.go)
--   maps schema URIs to the prefixes of conditions; Checkers.Registry (checkers.go: Register,
--   CheckFirstPartyCaveat) keeps the check functions by the full conditions that it makes with a
--   namespace. Checkers.Declared (declared.go) and Checkers.Time (time.go) read the conditions of the
--   caveats of macaroons: what they declare and when they expire.
-- - Bakery.Codec: third party caveat ids, bakery/codec.go. Bakery.Codec has versions 2 and 3
--   (encodeCaveatV2V3, decodeCaveatV2V3 and their secret part), over Bakery.Uvarint (appendUvarint,
--   uvarintLen) and Bakery.Crypto; Bakery.Codec.Legacy has version 1 and the choice of the version
--   (encodeCaveat, decodeCaveat). A version 3 id carries a namespace as text.
-- - Bakery.Keys: keys and the store of third parties, bakery/keys.go.
-- - Bakery.Macaroon: macaroons with their namespace and the encrypted caveats that they keep,
--   bakery/macaroon.go (NewMacaroon, newCaveatId); Bakery.Macaroon.Adding has AddCaveat, which encodes
--   a third party caveat with Bakery.Codec, and Bakery.Macaroon.Json has the JSON form (MarshalJSON,
--   UnmarshalJSON), which holds the text of the namespace. The record MacaroonLib stands for gopkg.in/macaroon.v2,
--   and Platform for all the packages that macaroons are made with.
-- - Bakery.Discharge: the discharge of a caveat by the third party, bakery/discharge.go (Discharge,
--   checkNeedDeclared). It decodes the caveat and adds caveats to a new macaroon.
-- - Bakery.Slices: bakery/slice.go and bakery/dischargeall.go: the gathering of the discharges that a
--   macaroon needs, their binding and purging.
-- - Bakery.Ops and Bakery.Oven: bakery/oven.go and bakery/store.go. Bakery.Ops has CanonicalOps and
--   the operations of macaroon ids; Bakery.Oven mints macaroons (NewMacaroon) with keys of a
--   RootKeyStore, and finds key and operations of a macaroon again (VerifyMacaroon).
-- - RootKeys: the cache of root keys, bakery/dbrootkeystore/rootkey.go. The record RootKeys is the
--   state; each operation returns the new one.
-- - Auth: the authorization checker, bakery/checker.go. Auth and Auth.Allow (AuthChecker,
--   allowContext: init, checkDirect, checkIndirect, Allow) decide which operations some macaroons
--   allow, with a verifier, a checker of first party conditions and an authorizer. Auth.Squash
--   (caveatSquasher, AuthInfo.Conditions) rationalizes the conditions of the macaroons used.
-- - Identity: bakery/identchecker. Identity has the authorizers (authorizer.go) and Identity.Checking
--   the checker that finds the identity first (checker.go: Allow, AuthorizeOps), which calls Auth with
--   an authorizer of its own and reads the identity off what Checkers.Declared infers.
-- - RelativeUrl: internal/httputil/relativeurl.go (RelativeURLPath), and the resolution that it is for.
-- - HttpErrors: httpbakery/error.go. It makes responses of errors, and errors that ask for discharges,
--   with a cookie path that RelativeUrl finds.
-- - Strings: what the parts use of Go's strings and unicode/utf8. Prelude: shared helpers.
-- - Tests: small inputs.
--
-- Conventions: a string is a list of bytes; a Go map is an association list whose keys are unique. A
-- panic is an error of the result. A nil namespace is `none`. Times are numbers of nanoseconds.
--
-- Bounds: `binary.PutUvarint` and `uvarintLen` loop at most nine times after the first byte, since a
-- uint64 has ten groups of seven bits. The loop of newCaveatId has one round more than the macaroon has
-- caveats, which is enough since the ids tried are distinct. The loop of Slice.DischargeAll is given a
-- number of rounds; whether a number is enough depends on the discharges. All other recursion is on the
-- structure of the data.
--
-- A version is an int, for which Version has one constructor for all negative ones. A duration of the
-- root keys is the bit pattern of an int64, and its sums wrap around. What is random is an argument, and
-- so are what other parties answer and what the clock shows at each reading of RootKey.
--
-- Parameters: golang.org/x/crypto/nacl/box with its laws, gopkg.in/macaroon.v2, encoding/json and
-- base64 on caveat ids and on macaroons, where the text of a namespace is the code's own, macaroonpb,
-- the parsing and the formatting of times, the database behind the root keys, the clients' check
-- functions, and the texts that fmt makes for errors.
--
-- Not modelled: `AuthChecker.Allowed`, and the rest of the HTTP packages, whose code moves requests and
-- responses. Logging and contexts are left out.
pub mod Prelude
pub mod Strings
pub mod Checkers
pub mod Bakery
pub mod RelativeUrl
pub mod RootKeys
pub mod Auth
pub mod Identity
pub mod HttpErrors
pub mod Tests
