-- ===== src/Lib.antt =====
-- Raven server: a model of the parts of the TAK server that decide who belongs to which group, who
-- sees what, and which messages reach which device, with the theorems that make these parts correct.
--
-- The parts and how they interact:
-- * Groups (raven/group_policy.py, raven/group_isolation.py, raven/models/Group.py,
--   raven/models/GroupUser.py). The table groups_users is a list of rows `GroupUser`. Groups.Policy
--   has add_membership, apply_auto_join and expire_memberships of group_policy.py under their names:
--   functions from the table to the new table, the events written to the audit trail and what is
--   unbound in RabbitMQ. Groups.Isolation has group_isolation.py: filter_by_groups and can_see for the
--   reader, assign_uploader_groups for the uploader, can_publish, resolve_group_names. Both work on
--   the same rows, so what expiry deletes is compared with what isolation reads.
-- * Chat (raven/offline_chat.py). Chat.Queue is queue_offline_chat, which cot_parser calls for each
--   GeoChat event; Chat.Delivery is deliver_pending, which the EUD handler calls when a device has
--   connected, record_rx, settle_live_deliveries and drop_queue. The table offline_chat_messages is a
--   list of rows `Message` with the next id. Team chat reads the memberships of Groups.
-- * Retention (raven/retention.py, raven/models/RetentionSetting.py). Retention.Purge has _aged and
--   _delete_in_batches, Retention.Types the purges of CoTs, positions and the offline chat queue,
--   whose rows are those of Chat, Retention.Content the purges of markers, data packages and mission
--   changes (the database deletes a row's dependents), Retention.Settings the table retention_settings
--   with keep_seconds, update_settings, validate_keep_seconds and describe_seconds, Retention.Job the
--   job apply_retention.
-- * Tokens (raven/models/Token.py). to_json, hash_token, generate_token and verify_token under their
--   names; the table tokens is a list of rows `Token`. PyJWT, SHA-256 and str.lower are parameters.
-- * Profiles (raven/device_profiles.py). match_level, matching_profiles and resolve_settings under
--   their names; the user's groups come in as names. str.lower and the order of str are parameters.
-- * Metrics (raven/metrics.py, raven/models/MetricCounter.py, raven/models/MetricSample.py).
--   SharedCounters with its wrapping slots, MetricsFlusher.flush, _upsert in both dialects and write;
--   Metrics.Reading has read_rows, totals, by_label, take_sample and sample_rates. Runs of counts and
--   flushes are lists of `Event`. The regular expressions and the rounding of rates are parameters.
-- * Revocation (raven/cert_revocation.py). Revocation.Serials is about normalize_serial and
--   _index_serial, on lists of code points; Revocation.Index has revoked_serials, is_revoked and
--   revoke on the lines of crl_index.txt. Whether openssl makes the CRL is an input, the date format a
--   parameter.
-- * Eud (raven/eud_handler/EudHandler.py, EudHandlerSSL.py). Eud.Framing is the loop of `handle` that
--   cuts the stream; Eud.Session the state of a connection with close_connection; Eud.Login
--   authenticate_eud_credentials, which calls Tokens.verify_token, and handle_auth; Eud.Identify
--   parse_device_info, which reads the rows of Groups; Eud.Commands the clear commands that it
--   delivers; Eud.Stream handle_cot, publish_cot and the messages of RabbitMQ; Eud.Run the inputs of a
--   connection in any order, the handshake of EudHandlerSSL.setup among them. What a connection does to the outside is a list of `Output`. The XML
--   parser, the datastore, password hashes and LDAP are parameters.
--
-- How the source's effects are modelled: a table is a list of rows in the order of the primary key, a
-- WHERE clause is a Boolean test, and a result that a function returns beside its effects is a field
-- of a record. Where a commit may fail, an argument says how it ends (as does the number of socket
-- writes that succeed); record_rx and settle_live_deliveries, whose only write is the commit at their
-- end, are modelled with that commit taken. Times are seconds, natural numbers; the current time is an argument, so that
-- utcnow is read once for each call. The loops run over lists or texts, by structural recursion, so
-- that they need no fuel, but for three. The loop of _delete_in_batches has one more round as its fuel
-- than the table has rows: each round but the last deletes a row, so that it never runs out. The loop
-- of on_channel_open appends to the list it runs over while the channel is closed, so that its number
-- of turns is an argument; the digits of a number are written with the number itself as the fuel.
--
-- Not modelled: request handlers, servers and sockets, RabbitMQ, XML, openssl and database internals.
-- These are what the parameters above stand for.
pub mod Prelude
pub mod Groups
pub mod Chat
pub mod Retention
pub mod Tokens
pub mod Profiles
pub mod Metrics
pub mod Revocation
pub mod Eud
