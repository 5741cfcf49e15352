-- ===== src/Lib.antt =====
-- A verification library for vehicle_detection, a ROS 2 package that plays point clouds, finds vehicles in
-- them and saves, publishes and posts what it finds.
--
-- The parts and how they interact. `pcd_loader_node` resolves a playlist of PCD files (`pcd_playlist`) and
-- publishes them on a timer. `vehicle_detector_node` turns clouds into detections. `detection_sender_node`
-- takes the detections, has them written to a file (`detection_result_writer`), publishes them and puts
-- their JSON text (`detection_json`) into a queue, from which a worker posts it (`http_client`). The nodes
-- check their parameters with `parameter_validation`. `parameter_bridge_node` shows and sets the parameters
-- of the others over HTTP, as JSON values that `parameter_json` converts.
--
-- Which file models which part (paths from the repository's root):
--   Playlist: src/vehicle_detection/src/pcd_playlist.cpp. Playlist/Wildcard is `wildcard_match`: Loop the
--     code, Spec what a pattern means, Total and Correct the proofs. Playlist/Resolve is
--     `resolve_pcd_playlist` with its helpers; Files and Directory say what it gives.
--   Validation: src/vehicle_detection/src/parameter_validation.cpp, one function for each validator.
--   Clouds: src/vehicle_detection/src/point_cloud_processing.cpp, one function for each of its own; Boxes and
--     Region are about the boxes of clusters, Crop about what the filters keep.
--   Loader: src/vehicle_detection/src/pcd_loader_node.cpp. The node's members are the record `Loader`;
--     `load_index`, `publish_cached` and `tick_publish` are its methods, `construct` its constructor; Directory
--     goes from a directory to what is published.
--   Detector: src/vehicle_detection/src/vehicle_detector_node.cpp. Settings is the `Snapshot` with its
--     parameters and checks, Messages what it publishes, Node the callbacks; Reports says what `on_cloud`
--     is to publish, Region where it lies, Delivered what the sender makes of it, Received what of it reaches
--     the server.
--   ParameterJson: src/vehicle_detection/src/parameter_json.cpp. Value has the values of nlohmann::json and
--     of rclcpp, Convert the functions; RoundTrip and Typed say what comes back and of what type.
--   Bridge: src/vehicle_detection/src/parameter_bridge_node.cpp. Update is `handle_post_parameters`, Overview
--     `snapshot_node`, Server the thread of the server, Node the constructor and the routes. Counting and
--     Accounts follow the names of an update, Sent what is set, Entries and Shown what an overview says.
--   Http: src/vehicle_detection/src/http_client.cpp. Url is `parse_http_url`, with what it accepts in UrlGrammar,
--     UrlParts, UrlExact and UrlClean, Status `parse_status_line`,
--     Connect `connect_with_timeout`, Transfer `send_all` and the loop of `recv`, Post `http_post_json`;
--     Reader is a reader of requests, as a server has one.
--   Json: src/vehicle_detection/src/detection_json.cpp. Escape is `escape_json_string`, Timestamp
--     `format_iso8601_utc`, Serialize `format_double` and `serialize_detections`; Tree is a reader of JSON
--     with the grammar of numbers in Numbers, PayloadText and PayloadTree what it reads of a payload.
--   Writer: src/vehicle_detection/src/detection_result_writer.cpp, `configure`, `append` and `is_open`.
--   Sender: src/vehicle_detection/src/detection_sender_node.cpp. Settings is the `Snapshot` with its
--     parameters and checks, Messages `to_json_payload`, Queue `enqueue_http`, Worker the attempts of
--     `http_worker_loop`, Node the members and the callbacks, Thread the worker beside these. History is what
--     goes into the queue and out of it over a run, with Order and Room; Join is the end of the worker, Quiet and
--     Saved what is saved, Posts
--     with what settings it posts, Trace how its turns interleave with the callbacks, Outcomes, Texts and Posted
--     what reaches the server.
--   The `main` of each of the four nodes is in the module Main of its part.
--   Common: what the others share: Boolean tests, lists over native numbers, texts as lists of bytes,
--     results with a message, integers, the interface of `double`, searches in texts, numerals, sorting.
--   Samples: concrete inputs, with the theorems at these.
--
-- What stands outside is an argument: the file system (`FileSystem`), PCL (`Pcl`), PCL's loader with
-- the clock (`World`), the answers of the system calls (`AddressScript`, `SendAnswer`, `RecvAnswer`,
-- `Script`), what becomes of a written line (`Delivery`), tf2 with pcl_conversions (`Ros`), the text of
-- JSON values (`Nlohmann`), the parameter services of another node (`ParametersClient`), the installed
-- files (`Installation`), the floating point numbers (`Double`). A mutex makes what it guards one step,
-- and the threads interleave as a list of events. A call that waits for ever has no result.
--
-- Bounds and fuel. The loop of `wildcard_match` runs on (text length + 1) * (pattern length + 1)
-- iterations: between two uses of the saved star the pattern is walked at most once, and each use moves the
-- saved place in the text. The other loops follow a list. `std::stoi` is bounded to int; the sum
-- `http_retry_count + 1` to int64. The numbers of detections and markers count the clusters of a frame,
-- which are fewer than an int counts. The reader of JSON in Json/Tree takes as fuel any bound of the number
-- of values.
--
-- Not modelled: the exceptions that a directory iterator throws at an increment and `is_regular_file` at an
-- entry, which no handler of `resolve_pcd_playlist` catches; logging and the set-up of publishers, subscriptions and topics, which is calls of rclcpp; the
-- launch file, the web page, the tools and the tests.
pub mod Common
pub mod Playlist
pub mod Validation
pub mod Clouds
pub mod Bridge
pub mod ParameterJson
pub mod Detector
pub mod Loader
pub mod Http
pub mod Json
pub mod Writer
pub mod Sender
mod Samples
