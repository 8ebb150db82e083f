-- ===== src/Lib.antt =====
-- codesign signs Windows binaries remotely: a client library and command post a PE or MSI file to
-- the daemon signerd, which checks the caller's GitHub Actions token and signs with a key on a
-- hardware token. Each file below opens with the code that it is about.
--
-- Common: byte strings, lists over the native numbers, Go's errors as values (Common.Errors).
-- Text: what the program uses of Go's strings, unicode/utf8 and path/filepath, over byte strings.
--   Go's Unicode tables beyond ASCII are the parameter Text.Fold.Tables.
-- Signer: signer/signer.go, the request that a backend gets and its Check; Contract is what a
--   backend promises; Fake is signer/fake.go, Fake.Marked what its Sign comes to.
-- Oidc: oidc/oidc.go. Keys is the key cache (cacheFresh, refresh, key), Jwks the download
--   (loadKeys, checkJWKSURI, getJSON), Verify the verifier; Base64 reads the numbers of a key.
--   Freshness, Cooldown, Jwks.Origin, Admission and Acceptance prove what each promises.
-- Server: server/server.go. Detect is detectKind and the readers below it, Extension is
--   safeExtension, Headers is bearerToken, sanitizeMetadata and signingRequest, Loopback is
--   isLoopback, Auth is authenticate; Auth.Github joins the server to package oidc as newDaemon of
--   cmd/signerd/main.go does. Upload is signUpload, writeSigned and withToken over the files of
--   Common.Store, Handler is handleSign and replySignError (Handler.Serving: when it does serve),
--   Health is handleHealth and its cache. Response is what they use of net/http. Semaphore has the
--   two channels under concurrent requests. Construction is New and Serve.
-- Backends: backends/backends.go, over the same file store: Arguments says how a tool reads its
--   arguments, Publish is about publishSigned, Pin about withPINFile, Copying is copyFile, Listing
--   is about runHealth; Osslsigncode and Jsign are backends/osslsigncode.go and backends/jsign.go,
--   Contract joins them to the signer's promise, and Success says when they do sign.
-- Signerd: cmd/signerd/main.go. Its checks, validateConfig, and in Ready what the daemon can rely
--   on behind them; Loading is loadConfig, Assembly is buildSigner, newDaemon and run, Started says
--   what a daemon that starts has, and Healthy what its signer's report of health means.
-- Client: client.go. Sign with its retries, signOnce and validateHeaders; Replace is SignFile and
--   writeAtomic over the files; New is New, secureURL and buildTLS, Token is Health and
--   FetchGitHubToken. Wire is what the server reads of the headers that the client sets and
--   protocol.go names, and Wire.Delivered runs an attempt of the client at the server.
-- Command: cmd/codesign/main.go. buildClient and signFiles; Files says which files a run has
--   signed, Audience which token its client has.
-- Tests: the definitions on concrete inputs, and the theorems at inputs that meet their hypotheses.
--
-- A Go string or byte slice is a list of numbers; where a theorem needs that they are bytes, it
-- says so. Stateful code returns the new state with its result. A file is read through ReadAt, and
-- the reader of a regular file is file_reader. Times are nanoseconds of a clock that does not run
-- backwards; a call takes its readings as an argument, in the order in which the code takes them.
-- Between two critical sections of key the cache may be changed by other calls: these changes are
-- arguments too. No definition takes fuel: every loop is a recursion on a list, or on the retries
-- that are left.
--
-- Parameters, for code that is not in the repository: the JWT library (ParseWithClaims, with its
-- documented promise IsSound, that it makes each check that the options ask for, and IsComplete,
-- that it accepts what passes those checks, among them that the token is valid already), the HTTP
-- client, URL parser and JSON decoder (Remote), Go's network parsers (Net, and Platform for URLs,
-- addresses, PEM and certificates) and Unicode tables (Tables, with FoldsApart), the decoders of
-- configuration files and the environment (System), the Actions runtime (Actions), and the signing
-- tools (Runner, of which SignsInPlace and WritesOut say that they write the file that they are
-- told to write, and no other, MakesOut and MakesInPlace that it is made of the file that they are
-- told to read, and SignsOut and SignsCopy that they succeed when they are told what they need).
--
-- What the operating system, the network and other requests do during one call is an argument of
-- the call (Outcomes, Probe): each system call succeeds or fails as that says, removals included
-- (the fields removed and stays, and the arguments of that name): where the code ignores that a
-- removal fails, the file stays, and the theorems say which files may stay. net/http trims the
-- white space around the values of headers, which Client.Wire does too. The backend is an argument
-- too, any function on the files. A sign request counts the slots that others hold as its state
-- says when it arrives; concurrent requests are interleaved step by step in Server.Semaphore only,
-- where the end of a request's context is an event from outside, a request gives up only behind it,
-- and an upload is refused only at a full channel.
--
-- Not modelled: the flag parsing, printing and signal handling of the two commands; the routes and
-- timeouts that New of the server hands to net/http; Exec, which starts a process; file
-- permissions; the chunks of a copy; logging, and the wording of wrapped errors beyond their notes.
pub mod Backends
pub mod Client
pub mod Command
pub mod Common
pub mod Text
pub mod Signer
pub mod Oidc
pub mod Server
pub mod Signerd
pub mod Tests
